-- ===== src/Config/Connections.antt =====
-- How the databases and Redis of a configuration that is accepted are reached,
-- internal/config/validate.go.
use across_backend_api.Prelude.{
  and_both, or_split, ℕ, ◌+◌, ◌≤◌, ◌≡◌, refl, subst, ◌⊎◌, inl, inr, Bool, true, false, not, ◌&&◌,
  ◌||◌, Option, none, some, List, [], ◌∷◌, ◌++◌, arith, ltb, Bool-cases, if◌then◌else◌,
}
use across_backend_api.Prelude.Text.{Text, codes, text_eq, text_eq_sound, is_empty}
use across_backend_api.Prelude.Int.{ℤ, pos, ◌≤ℤ◌, ltb_ℤ, pos_part, neg_part}
use across_backend_api.Config.Promises.{
  IsPeer, IsSecured, IsSecuredRedis, empty_nil, verified_postgres_tls-Hosts,
  pinned_vpn_database-Hosts,
}
use across_backend_api.Config.Validate.{
  TlsConfig, IpAddress, RedisSettings, Settings, Parsers, Problem, note, check_databases,
  check_database, check_redis, vpn_peer, verified_postgres_tls, pinned_vpn_database, database,
  redis_tls, redis_password, bad_pool, is_peer, is_checked, is_loopback_host, is_loopback_address,
}

pub nil-append : (xs ys : List Problem) → xs ++ ys ≡ [] → (xs ≡ []) × (ys ≡ [])
nil-append [] ys e = (refl, e)
nil-append (x ∷ xs) ys e = absurd (ground arith)

pub note-nil : (b : Bool) (p : Problem) → note b p ≡ [] → b ≡ false
note-nil true p e = absurd (ground arith)
note-nil false p e = refl

pub noted :
    (b : Bool) (p : Problem) (ys : List Problem) → note b p ++ ys ≡ [] → (b ≡ false) × (ys ≡ [])
noted b p ys e = let (a, rest) = nil-append (note b p) ys e in (note-nil b p a, rest)

private_address :
    (o : Option IpAddress)
    → is_peer o ≡ true
    → (a : IpAddress) × (o ≡ some a) × (a.is_private ≡ true) × (a.zone ≡ [])
private_address none h = absurd (ground arith)
private_address (some a) h =
    let (private, zone) = and_both a.is_private (is_empty a.zone) h in
    (a, refl, private, empty_nil a.zone zone)

looped :
    (o : Option IpAddress)
    → is_loopback_address o ≡ true
    → (a : IpAddress) × (o ≡ some a) × (a.is_loopback ≡ true)
looped none h = absurd (ground arith)
looped (some a) h = (a, refl, h)

one_of : (a b : Bool) → (not a && not b) ≡ false → (a ≡ true) ⊎ (b ≡ true)
one_of true b h = inl refl
one_of false true h = inr refl
one_of false false h = absurd (ground arith)

held_host :
    (parse : Parsers) (host : Text)
    → (not (is_empty host) && not (is_peer (parse.address host))) ≡ false
    → is_empty host ≡ false
    → IsPeer parse host
held_host parse host h full = private_address (parse.address host) (ground (arith, h, full))

-- The peer that the databases are held to is the one that was written.
vpn_peer_kept :
    (parse : Parsers) (host : Text)
    → (not (is_empty host) && not (is_peer (parse.address host))) ≡ false
    → vpn_peer parse host ≡ host
vpn_peer_kept parse host h = rw (h) refl

check_database-IsSecured :
    (parse : Parsers) (name raw peer : Text)
    → (not (is_empty peer) && not (is_peer (parse.address peer))) ≡ false
    → check_database parse name raw (vpn_peer parse peer) ≡ []
    → IsSecured parse peer raw
unfolding check_database
check_database-IsSecured parse name raw peer good e =
    let e1 = subst (λ z. check_database parse name raw z ≡ []) (vpn_peer_kept parse peer good) e in
    let h =
      note-nil (not (verified_postgres_tls parse raw) && not (pinned_vpn_database parse raw peer))
        (database name) e1 in
    elim (one_of (verified_postgres_tls parse raw) (pinned_vpn_database parse raw peer) h) [
      | inl verified ↦ inl (verified_postgres_tls-Hosts parse raw verified)
      | inr pinned ↦
          let (full, hosts) = pinned_vpn_database-Hosts parse raw peer pinned in
          inr (held_host parse peer good full, hosts)
    ]

checked_tls :
    (o : Option TlsConfig)
    → is_checked o ≡ true
    → (t : TlsConfig) × (o ≡ some t) × (t.insecure_skip_verify ≡ false)
checked_tls none h = absurd (ground arith)
checked_tls (some t) h = (t, refl, ground (arith, h))

loopback :
    (parse : Parsers) (o : Option Text)
    → is_loopback_host parse o ≡ true
    → (h : Text) × (o ≡ some h)
      × ((h ≡ codes "localhost")
          ⊎ ((a : IpAddress) × (parse.address h ≡ some a) × (a.is_loopback ≡ true)))
unfolding is_loopback_host
loopback parse none e = absurd (ground arith)
loopback parse (some h) e = elim (Bool-cases (text_eq h (codes "localhost"))) [
  | inl local ↦ (h, refl, inl (text_eq_sound h (codes "localhost") local))
  | inr other ↦ (h, refl, inr (looped (parse.address h) (rw other at e)))
]

pub check_redis-IsSecuredRedis :
    (parse : Parsers) (r : Option RedisSettings) → check_redis parse r ≡ [] → IsSecuredRedis parse r
unfolding check_redis
check_redis-IsSecuredRedis parse none e = absurd (ground arith)
check_redis-IsSecuredRedis parse (some r) e =
    let (a, rest) =
      noted
        (not (is_loopback_host parse (parse.split_host_port r.addr))
          && not (is_checked r.tls_config))
        redis_tls _ e in
    let way =
      one_of (is_loopback_host parse (parse.split_host_port r.addr)) (is_checked r.tls_config) a in
    (
      r,
      refl,
      note-nil (is_empty r.password) redis_password rest,
      elim way [
        | inl local ↦ inl (loopback parse (parse.split_host_port r.addr) local)
        | inr checked ↦ inr (checked_tls r.tls_config checked)
      ],
    )

pub at_least : (n k : ℕ) → ltb n k ≡ false → k ≤ n
at_least n k h = ground arith

pub not_less : (a b : ℤ) → ltb_ℤ a b ≡ false → b ≤ℤ a
not_less a b h = at_least (pos_part a + neg_part b) (pos_part b + neg_part a) h

pub bad_pool-bounds :
    (most least : ℤ)
    → bad_pool most least ≡ false
    → (pos 2 ≤ℤ most) × (pos 0 ≤ℤ least) × (least ≤ℤ most)
bad_pool-bounds most least h =
    let (h1, order) = or_split (ltb_ℤ most (pos 2) || ltb_ℤ least (pos 0)) (ltb_ℤ most least) h in
    let (two, natural) = or_split (ltb_ℤ most (pos 2)) (ltb_ℤ least (pos 0)) h1 in
    (not_less most (pos 2) two, not_less least (pos 0) natural, not_less most least order)

read_database :
    (parse : Parsers) (peer raw : Text)
    → (not (is_empty peer) && not (is_peer (parse.address peer))) ≡ false
    → (if is_empty raw
        then []
        else check_database parse (codes "DATABASE_READ_URL") raw (vpn_peer parse peer))
      ≡ []
    → (raw ≡ []) ⊎ IsSecured parse peer raw
read_database parse peer [] good e = inl refl
read_database parse peer (x ∷ raw) good e =
    inr (check_database-IsSecured parse (codes "DATABASE_READ_URL") (x ∷ raw) peer good e)

pub databases :
    (parse : Parsers) (peer : Text) (c : Settings)
    → (not (is_empty peer) && not (is_peer (parse.address peer))) ≡ false
    → check_databases parse false (vpn_peer parse peer) c ≡ []
    → IsSecured parse peer c.database_url
      × ((c.database_read_url ≡ []) ⊎ IsSecured parse peer c.database_read_url)
unfolding check_databases
databases parse peer c good e =
    let (first, second) =
      nil-append (check_database parse (codes "DATABASE_URL") c.database_url (vpn_peer parse peer))
        _ e in
    (
      check_database-IsSecured parse (codes "DATABASE_URL") c.database_url peer good first,
      read_database parse peer c.database_read_url good second,
    )
