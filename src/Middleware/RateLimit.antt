-- ===== src/Middleware/RateLimit.antt =====
-- `distributedRateLimit` of internal/middleware/scale.go, with `publicCacheablePath`: a fixed window
-- of requests for each client, counted by Redis. Windows are of whole milliseconds: a positive one
-- below a millisecond, by which the code would divide by 0, has no value here. That Redis forgets a
-- key when its time is over is not modelled.
use across_backend_api.Prelude.{
  ℕ, suc, ◌+◌, ◌-◌, ◌/◌, min, max, ◌≡◌, subst, ◌∙◌, ◌≢◌, inl, inr, Bool, true, false, not, ◌&&◌,
  ◌||◌, Option, none, some, List, [], ◌∷◌, ◌++◌, arith, ltb, ◌==◌, if◌then◌else◌, Bool-cases,
  length, All,
}
use across_backend_api.Prelude.Text.{Text, codes, text_eq, is_empty, has_prefix, contains}

-- The script of the limiter, as Redis answers it: the count of the key after this request, and the
-- milliseconds that the key is kept for; none when Redis is not available.
pub record Redis (S : Type 0) : Type 0 where
  pub count : Text → S → ℕ
  pub hit : Text → S → S × Option (ℕ × ℕ)

-- A Redis that always answers, in which `INCR` counts one key and leaves the others alone.
pub record IsCounting {S : Type 0} (redis : Redis S) : Type 0 where
  pub answer :
      (key : Text) (s : S) → (ttl : ℕ) × ((redis.hit key s).1 ≡ some (suc (redis.count key s), ttl))
  pub counted : (key : Text) (s : S) → redis.count key (redis.hit key s).0 ≡ suc (redis.count key s)
  pub others :
      (key other : Text) (s : S)
      → key ≢ other
      → redis.count other (redis.hit key s).0 ≡ redis.count other s

pub record Limit : Type 0 where
  pub client : Bool  -- whether there is a Redis client
  pub namespace : Text
  pub requests : ℕ
  pub window : ℕ  -- in milliseconds
  pub by_user : Bool

pub record HttpRequest : Type 0 where
  pub method : Text
  pub path : Text
  pub ip : Text
  pub user : Text
  pub at : ℕ  -- the time, in milliseconds

pub data Limited : Type 0 where
  allowed : Limited
  unauthorized : Limited
  too_many : ℕ → Limited  -- the seconds to wait

-- The requests that are not counted.
unfoldable pub is_exempt : Limit → HttpRequest → Bool
unfolding text_eq has_prefix
is_exempt l r =
    not l.client
    || ltb l.requests 1
    || l.window == 0
    || text_eq r.method (codes "OPTIONS")
    || text_eq r.path (codes "/api/v1/health")
    || text_eq r.path (codes "/api/v1/ready")
    || has_prefix r.path (codes "/api/v1/webhooks/")

abbrev pub is_allowed : Limited → Bool
is_allowed allowed = true
is_allowed _ = false

is_allowed-count :
    (n m t : ℕ) → is_allowed (if ltb m (suc n) then too_many t else allowed) ≡ ltb n m
is_allowed-count n m t = ground arith

module _ {S : Type 0} (redis : Redis S) (digest : Text → Text) (decimal : ℕ → Text) where
  -- The key that a request counts under. `digest` is SHA-256 in hexadecimal.
  unfoldable pub rate_key : Limit → HttpRequest → Text
  rate_key l r =
      codes "rate:"
      ++ (if is_empty l.namespace then codes "api" else l.namespace)
      ++ codes ":"
      ++ (if l.by_user then codes "user:" ++ digest r.user else r.ip)
      ++ codes ":"
      ++ decimal (r.at / l.window)

  unfoldable pub rate_limit : Limit → HttpRequest → S → S × Limited
  unfolding is_exempt rate_key
  rate_limit l r s =
      if is_exempt l r
      then (s, allowed)
      else if l.by_user && is_empty r.user
      then (s, unauthorized)
      else (let (s', answer) = redis.hit (rate_key l r) s in
          elim answer [
            | none ↦ (s', allowed)
            | some (count, ttl) ↦ (
              s',
              if ltb l.requests count then too_many (max 1 ((ttl + 999) / 1000)) else allowed,
            )
          ])

  -- The requests that a server lets through, of those that come in one after the other.
  abbrev pub let_through : Limit → List HttpRequest → S → ℕ
  let_through l [] s = 0
  let_through l (r ∷ rs) s =
      let (s', x) = rate_limit l r s in
      let rest = let_through l rs s' in if is_allowed x then suc rest else rest

  -- A counted request with this key.
  abbrev pub IsCounted : Limit → Text → HttpRequest → Type 0
  IsCounted l key r =
      (is_exempt l r ≡ false) × ((l.by_user && is_empty r.user) ≡ false) × (rate_key l r ≡ key)

  -- One counted request.
  rate_limit-counts :
      (c : IsCounting redis) (l : Limit) (r : HttpRequest) (s : S)
      → is_exempt l r ≡ false
      → (l.by_user && is_empty r.user) ≡ false
      → let key = rate_key l r in
        (redis.count key (rate_limit l r s).0 ≡ suc (redis.count key s))
        × (is_allowed (rate_limit l r s).1 ≡ ltb (redis.count key s) l.requests)
  unfolding rate_limit
  rate_limit-counts c l r s counted user =
      let (ttl, answer) = c.answer (rate_key l r) s in
      rw (counted, user, answer)
        (
          c.counted (rate_key l r) s,
          is_allowed-count (redis.count (rate_key l r) s) l.requests (max 1 ((ttl + 999) / 1000)),
        )

  -- When Redis answers, of any requests under one key that come in one after the other, the first
  -- ones are let through, and as many as the limit has left.
  pub let_through-count :
      (c : IsCounting redis) (l : Limit) (key : Text) (rs : List HttpRequest) (s : S)
      → All (IsCounted l key) rs
      → let_through l rs s ≡ min (length rs) (l.requests - redis.count key s)
  let_through-count c l key [] s a = ground arith
  let_through-count c l key (r ∷ rs) s a =
      let (n, x) =
        subst
          (λ k.
            (redis.count k (rate_limit l r s).0 ≡ suc (redis.count k s))
            × (is_allowed (rate_limit l r s).1 ≡ ltb (redis.count k s) l.requests))
          a.0.2 (rate_limit-counts c l r s a.0.0 a.0.1) in
      let ih = let_through-count c l key rs (rate_limit l r s).0 a.1 in
      elim (Bool-cases (ltb (redis.count key s) l.requests)) [
        | inl room ↦ ground (arith, x ∙ room, ih, n)
        | inr full ↦ ground (arith, x ∙ full, ih, n)
      ]

-- `publicCacheablePath`
unfoldable pub public_cacheable_path : Text → Bool
unfolding text_eq has_prefix contains
public_cacheable_path path =
    if text_eq path (codes "/api/v1/products")
      || text_eq path (codes "/api/v1/products/flash-sale")
      || text_eq path (codes "/api/v1/marketplace/listings")
      || text_eq path (codes "/api/v1/marketplace/nearby")
      || text_eq path (codes "/api/v1/marketplace/subscription-plans")
    then true
    else if has_prefix path (codes "/api/v1/products/")
    then not (contains path (codes "/reviews")) && not (contains path (codes "/mine"))
    else if has_prefix path (codes "/api/v1/marketplace/listings/")
    then not (contains path (codes "/reviews")) && not (contains path (codes "/availability"))
    else false
