-- ===== src/Config/Promises.antt =====
-- What the parts of a configuration that is accepted promise, stated apart from the tests of
-- internal/config/validate.go.
use across_backend_api.Prelude.{
  and_both, ℕ, ◌≤◌, ◌≡◌, refl, ap, ◌⊎◌, inl, inr, Bool, true, false, not, Option, none, some, List,
  [], ◌∷◌, ◌++◌, arith, All, Bool-cases,
}
use across_backend_api.Prelude.Text.{
  Text, codes, text_eq, text_eq_sound, is_empty, trim_space, contains,
}
use across_backend_api.Config.Validate.{
  Url, TlsConfig, PgHost, IpAddress, RedisSettings, Parsers, check_cidrs, is_verified, is_exact,
  is_nil, is_origin, all_origins, all_hosts, hosts_pass, is_bad_prefix, verified_postgres_tls,
  pinned_vpn_database,
}

-- A part of the list of proxies: blank, or a prefix that does not cover all addresses.
abbrev pub IsProxyPart : (Text → Option ℕ) → Text → Type 0
IsProxyPart parse raw =
    (is_empty (trim_space raw) ≡ true) ⊎ ((n : ℕ) × (parse (trim_space raw) ≡ some n) × (1 ≤ n))

-- An origin is `https://host` with nothing else in it.
abbrev pub IsExactOrigin : (Text → Option Url) → Text → Type 0
IsExactOrigin parse origin =
    (u : Url) × (parse (trim_space origin) ≡ some u)
    × (u.scheme ≡ codes "https")
    × (is_empty u.hostname ≡ false)
    × (u.user ≡ none)
    × (u.path ≡ [])
    × (u.raw_query ≡ [])
    × (u.fragment ≡ [])
    × (contains origin (codes "*") ≡ false)

-- TLS with a certificate that is verified against a name.
abbrev pub IsVerifiedHost : PgHost → Type 0
IsVerifiedHost h =
    (t : TlsConfig) × (h.tls_config ≡ some t)
    × (t.insecure_skip_verify ≡ false)
    × (is_empty t.server_name ≡ false)

abbrev pub Hosts : (PgHost → Type 0) → Parsers → Text → Type 0
Hosts P parse raw =
    (h : PgHost) × (more : List PgHost) × (parse.pg_hosts raw ≡ some (h, more)) × P h × All P more

-- The peer of the tunnel is a private address without a zone.
abbrev pub IsPeer : Parsers → Text → Type 0
IsPeer parse peer =
    (a : IpAddress) × (parse.address peer ≡ some a) × (a.is_private ≡ true) × (a.zone ≡ [])

-- A database is reached over TLS with a verified certificate, whichever of its hosts answers, or all
-- of its hosts are the peer of the tunnel.
abbrev pub IsSecured : Parsers → Text → Text → Type 0
IsSecured parse peer raw =
    Hosts IsVerifiedHost parse raw ⊎ (IsPeer parse peer × Hosts (λ h. h.host ≡ peer) parse raw)

-- Redis is on the machine itself.
abbrev pub IsOnMachine : Parsers → RedisSettings → Type 0
IsOnMachine parse r =
    (h : Text) × (parse.split_host_port r.addr ≡ some h)
    × ((h ≡ codes "localhost")
        ⊎ ((a : IpAddress) × (parse.address h ≡ some a) × (a.is_loopback ≡ true)))

-- Redis is reached with a password, on the machine itself or over TLS with a verified certificate.
abbrev pub IsSecuredRedis : Parsers → Option RedisSettings → Type 0
IsSecuredRedis parse redis =
    (r : RedisSettings) × (redis ≡ some r)
    × (is_empty r.password ≡ false)
    × (IsOnMachine parse r
        ⊎ ((t : TlsConfig) × (r.tls_config ≡ some t) × (t.insecure_skip_verify ≡ false)))

pub empty_nil : (s : Text) → is_empty s ≡ true → s ≡ []
empty_nil [] h = refl
empty_nil (c ∷ s) h = absurd (ground arith)

nil_none : (o : Option Text) → is_nil o ≡ true → o ≡ none
nil_none none h = refl
nil_none (some x) h = absurd (ground arith)

good_prefix : (o : Option ℕ) → is_bad_prefix o ≡ false → (n : ℕ) × (o ≡ some n) × (1 ≤ n)
good_prefix none h = absurd (ground arith)
good_prefix (some n) h = (n, refl, ground arith)

-- The loop over the prefixes.
pub check_cidrs-All :
    (parse : Text → Option ℕ) (raws : List Text)
    → (check_cidrs parse raws).0 ≡ false
    → All (IsProxyPart parse) raws
unfolding check_cidrs
check_cidrs-All parse [] h = tt
check_cidrs-All parse (raw ∷ more) h = elim (Bool-cases (is_empty (trim_space raw))) [
  | inl blank ↦ (inl blank, check_cidrs-All parse more (rw blank at h))
  | inr full ↦ elim (Bool-cases (is_bad_prefix (parse (trim_space raw)))) [
    | inl bad ↦ let h1 : true ≡ false = rw (full, bad) at h in absurd (ground arith)
    | inr good ↦ (
      inr (good_prefix (parse (trim_space raw)) good),
      check_cidrs-All parse more (rw (full, good) at h),
    )
  ]
]

-- A prefix that counts is written in the list.
pub check_cidrs-written :
    (parse : Text → Option ℕ) (raws : List Text)
    → 1 ≤ (check_cidrs parse raws).1
    → (before : List Text) × (raw : Text) × (after : List Text) × (raws ≡ before ++ raw ∷ after)
      × (is_empty (trim_space raw) ≡ false)
unfolding check_cidrs
check_cidrs-written parse [] h = absurd (ground arith)
check_cidrs-written parse (raw ∷ more) h = elim (Bool-cases (is_empty (trim_space raw))) [
  | inl blank ↦
      let (before, one, after, e, full) = check_cidrs-written parse more (rw blank at h) in
      (raw ∷ before, one, after, ap (λ z. raw ∷ z) e, full)
  | inr full ↦ ([], raw, more, refl, full)
]

exact_url :
    (o : Option Url)
    → is_exact o ≡ true
    → (u : Url) × (o ≡ some u)
      × (u.scheme ≡ codes "https")
      × (is_empty u.hostname ≡ false)
      × (u.user ≡ none)
      × (u.path ≡ [])
      × (u.raw_query ≡ [])
      × (u.fragment ≡ [])
exact_url none h = absurd (ground arith)
exact_url (some u) h =
    let (h1, fragment) = and_both _ (is_empty u.fragment) h in
    let (h2, query) = and_both _ (is_empty u.raw_query) h1 in
    let (h3, path) = and_both _ (is_empty u.path) h2 in
    let (h4, user) = and_both _ (is_nil u.user) h3 in
    let (scheme, host) =
      and_both (text_eq u.scheme (codes "https")) (not (is_empty u.hostname)) h4 in
    (
      u,
      refl,
      text_eq_sound u.scheme (codes "https") scheme,
      ground (arith, host),
      nil_none u.user user,
      empty_nil u.path path,
      empty_nil u.raw_query query,
      empty_nil u.fragment fragment,
    )

-- The loop over the origins.
pub all_origins-All :
    (parse : Text → Option Url) (os : List Text)
    → all_origins parse os ≡ true
    → All (IsExactOrigin parse) os
unfolding all_origins is_origin
all_origins-All parse [] h = tt
all_origins-All parse (o ∷ os) h =
    let (one, more) = and_both _ (all_origins parse os) h in
    let (exact, star) =
      and_both (is_exact (parse (trim_space o))) (not (contains o (codes "*"))) one in
    let (u, parsed, scheme, host, user, path, query, fragment) =
      exact_url (parse (trim_space o)) exact in
    (
      (u, parsed, scheme, host, user, path, query, fragment, ground (arith, star)),
      all_origins-All parse os more,
    )

module _ (p : PgHost → Bool) (P : PgHost → Type 0) (sound : (h : PgHost) → p h ≡ true → P h) where
  all_hosts-All : (hs : List PgHost) → all_hosts p hs ≡ true → All P hs
  all_hosts-All [] h = tt
  all_hosts-All (x ∷ hs) h =
      let (one, more) = and_both (p x) (all_hosts p hs) h in (sound x one, all_hosts-All hs more)

  hosts_pass-Hosts :
      (o : Option (PgHost × List PgHost))
      → hosts_pass p o ≡ true
      → (h : PgHost) × (more : List PgHost) × (o ≡ some (h, more)) × P h × All P more
  hosts_pass-Hosts none h = absurd (ground arith)
  hosts_pass-Hosts (some (x, hs)) h =
      let (one, more) = and_both (p x) (all_hosts p hs) h in
      (x, hs, refl, sound x one, all_hosts-All hs more)

verified_host :
    (o : Option TlsConfig)
    → is_verified o ≡ true
    → (t : TlsConfig) × (o ≡ some t)
      × (t.insecure_skip_verify ≡ false)
      × (is_empty t.server_name ≡ false)
verified_host none h = absurd (ground arith)
verified_host (some t) h =
    let (checked, named) = and_both (not t.insecure_skip_verify) (not (is_empty t.server_name)) h in
    (t, refl, ground (arith, checked), ground (arith, named))

pub verified_postgres_tls-Hosts :
    (parse : Parsers) (raw : Text)
    → verified_postgres_tls parse raw ≡ true
    → Hosts IsVerifiedHost parse raw
unfolding verified_postgres_tls
verified_postgres_tls-Hosts parse raw h =
    let (full, pass) = and_both (not (is_empty (trim_space raw))) _ h in
    hosts_pass-Hosts (λ x. is_verified x.tls_config) IsVerifiedHost
      (λ x. verified_host x.tls_config) (parse.pg_hosts raw) pass

pub pinned_vpn_database-Hosts :
    (parse : Parsers) (raw peer : Text)
    → pinned_vpn_database parse raw peer ≡ true
    → (is_empty peer ≡ false) × Hosts (λ h. h.host ≡ peer) parse raw
unfolding pinned_vpn_database
pinned_vpn_database-Hosts parse raw peer h =
    let (full, pass) = and_both (not (is_empty peer)) _ h in
    (
      ground (arith, full),
      hosts_pass-Hosts (λ x. text_eq x.host peer) (λ x. x.host ≡ peer)
          (λ x. text_eq_sound x.host peer) (parse.pg_hosts raw) pass,
    )
