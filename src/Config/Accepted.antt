-- ===== src/Config/Accepted.antt =====
-- What a configuration that is accepted is, internal/config/validate.go.
use across_backend_api.Prelude.{
  not-false, ℕ, ◌≤◌, ◌≡◌, refl, sym, subst, ◌⊎◌, Bool, true, false, not, ◌&&◌, ◌||◌, List, [], ◌∷◌,
  ◌++◌, arith, ltb, ◌==◌, length, All,
}
use across_backend_api.Prelude.Text.{Text, codes, text_eq, is_empty, trim_space, mem_text}
use across_backend_api.Prelude.Int.{pos, ◌≤ℤ◌, ltb_ℤ}
use across_backend_api.Middleware.ClientIp.{split_commas}
use across_backend_api.Config.Promises.{
  IsProxyPart, IsExactOrigin, IsSecured, IsSecuredRedis, check_cidrs-All, check_cidrs-written,
  all_origins-All,
}
use across_backend_api.Config.Validate.{
  Settings, Parsers, Problem, note, only_if, environment, is_live, check_cidrs, check_service,
  check_api, check_live, check_databases, check_redis, all_origins, vpn_peer, validate_settings,
  dev_login, jwt, bootstrap, mock, no_proxy, migrations, inline_workers, in_flight, origins, pool,
  read_pool, vpn, app_env, cidrs, service_role, worker_roles, is_local, bad_pool, no_roles, is_peer,
}
use across_backend_api.Workers.{worker_role_names}
use across_backend_api.Config.Connections.{
  nil-append, noted, note-nil, check_redis-IsSecuredRedis, at_least, not_less, bad_pool-bounds,
  databases,
}

-- What an API in a live environment may rely on.
pub record Sound (parse : Parsers) (c : Settings) : Type 0 where
  pub no_dev_login : c.enable_dev_login ≡ false
  pub secret : 32 ≤ length (trim_space c.jwt_secret)
  pub no_bootstrap : is_empty c.admin_bootstrap_token ≡ true
  pub no_mock : c.enable_mock_payments ≡ false
  pub no_migrations : c.run_migrations ≡ false
  pub no_inline_workers : c.run_inline_workers ≡ false
  pub in_flight_limit : pos 1 ≤ℤ c.http_max_in_flight
  pub pool :
      (pos 2 ≤ℤ c.database_max_conns)
      × (pos 0 ≤ℤ c.database_min_conns)
      × (c.database_min_conns ≤ℤ c.database_max_conns)
  pub proxies : All (IsProxyPart parse.prefix_bits) (split_commas c.trusted_proxy_cidrs)
  pub proxy :
      (before : List Text) × (raw : Text) × (after : List Text) × (split_commas
          c.trusted_proxy_cidrs
        ≡ before ++ raw ∷ after)
      × (is_empty (trim_space raw) ≡ false)
  pub origins : All (IsExactOrigin parse.url) (split_commas c.allowed_origins)
  pub secured : IsSecured parse (trim_space c.verified_vpn_host) c.database_url
  pub read_secured :
      (c.database_read_url ≡ [])
      ⊎ IsSecured parse (trim_space c.verified_vpn_host) c.database_read_url
  pub redis : IsSecuredRedis parse c.redis

tail_of :
    (a b d e : Bool) (rest : List Problem)
    → note a app_env ++ (note b cidrs ++ (note d service_role ++ (note e worker_roles ++ rest)))
      ≡ []
    → (b ≡ false) × (rest ≡ [])
tail_of a b d e rest h =
    let (k1, h1) = noted a app_env _ h in
    let (k2, h2) = noted b cidrs _ h1 in
    let (k3, h3) = noted d service_role _ h2 in
    let (k4, h4) = noted e worker_roles rest h3 in (k2, h4)

live_checks :
    (parse : Parsers) (count : ℕ) (c : Settings) (live : Bool)
    → live ≡ true
    → only_if live (
        check_live parse
          (text_eq (codes "api") (codes "api"))
          (text_eq (codes "api") (codes "migrate"))
          count
          c)
      ≡ []
    → check_live parse true false count c ≡ []
unfolding text_eq
live_checks parse count c true h e = e
live_checks parse count c false h e = absurd (ground arith)

service_checks :
    (c : Settings)
    → check_service c ≡ []
    → (c.enable_dev_login ≡ false)
      × (ltb (length (trim_space c.jwt_secret)) 32 ≡ false)
      × (not (is_empty c.admin_bootstrap_token) ≡ false)
      × (c.enable_mock_payments ≡ false)
unfolding check_service
service_checks c e =
    let (a, e1) = noted c.enable_dev_login dev_login _ e in
    let (b, e2) = noted (ltb (length (trim_space c.jwt_secret)) 32) jwt _ e1 in
    let (d, e3) = noted (not (is_empty c.admin_bootstrap_token)) bootstrap _ e2 in
    (a, b, d, note-nil c.enable_mock_payments mock e3)

api_checks :
    (parse : Parsers) (count : ℕ) (c : Settings)
    → check_api parse count c ≡ []
    → ((count == 0) ≡ false)
      × (c.run_migrations ≡ false)
      × (c.run_inline_workers ≡ false)
      × (ltb_ℤ c.http_max_in_flight (pos 1) ≡ false)
      × (not (all_origins parse.url (split_commas c.allowed_origins)) ≡ false)
unfolding check_api
api_checks parse count c e =
    let (a, e1) = noted (count == 0) no_proxy _ e in
    let (b, e2) = noted c.run_migrations migrations _ e1 in
    let (d, e3) = noted c.run_inline_workers inline_workers _ e2 in
    let (f, e4) = noted (ltb_ℤ c.http_max_in_flight (pos 1)) in_flight _ e3 in
    (a, b, d, f, note-nil _ origins e4)

not_zero : (n : ℕ) → (n == 0) ≡ false → 1 ≤ n
not_zero n h = ground arith

check_live-Sound :
    (parse : Parsers) (count : ℕ) (c : Settings)
    → (check_cidrs parse.prefix_bits (split_commas c.trusted_proxy_cidrs)).0 ≡ false
    → (check_cidrs parse.prefix_bits (split_commas c.trusted_proxy_cidrs)).1 ≡ count
    → check_live parse true false count c ≡ []
    → Sound parse c
unfolding check_live
check_live-Sound parse count c good counted e =
    let peer : Text = vpn_peer parse (trim_space c.verified_vpn_host) in
    let (s, e1) = nil-append (check_service c) _ e in
    let (a, e2) = nil-append (check_api parse count c) _ e1 in
    let (p, e3) = noted (bad_pool c.database_max_conns c.database_min_conns) pool _ e2 in
    let (q, e4) =
      noted
        (not (is_empty c.database_read_url)
          && not (text_eq c.database_read_url c.database_url)
          && bad_pool c.database_read_max_conns c.database_read_min_conns)
        read_pool _ e3 in
    let (v, e5) =
      noted
        (not (is_empty (trim_space c.verified_vpn_host))
          && not (is_peer (parse.address (trim_space c.verified_vpn_host))))
        vpn _ e4 in
    let (d, r) = nil-append (check_databases parse false peer c) (check_redis parse c.redis) e5 in
    let (first, second) = databases parse (trim_space c.verified_vpn_host) c v d in
    let (login, secret, token, mocks) = service_checks c s in
    let (proxies, moves, inline, flight, exact) = api_checks parse count c a in
    record {
      no_dev_login = login;
      secret = at_least _ 32 secret;
      no_bootstrap = not-false _ token;
      no_mock = mocks;
      no_migrations = moves;
      no_inline_workers = inline;
      in_flight_limit = not_less c.http_max_in_flight (pos 1) flight;
      pool = bad_pool-bounds c.database_max_conns c.database_min_conns p;
      proxies = check_cidrs-All parse.prefix_bits (split_commas c.trusted_proxy_cidrs) good;
      proxy =
          check_cidrs-written parse.prefix_bits (split_commas c.trusted_proxy_cidrs)
            (subst (λ n. 1 ≤ n) (sym counted) (not_zero count proxies));
      origins = all_origins-All parse.url (split_commas c.allowed_origins) (not-false _ exact);
      secured = first;
      read_secured = second;
      redis = check_redis-IsSecuredRedis parse c.redis r;
    }

-- A configuration that is accepted for the API in production or staging is sound: there is no login
-- for developers, no bootstrap token, no mock payment, no migration and no worker in it; its secret
-- has 32 bytes, it bounds its requests, and the pool of its database has 2 connections or more;
-- every part of the list of proxies that is not blank is a prefix of 1 bit or more, and there is
-- such a part; every origin is HTTPS and a host without a user, a path, a query, a fragment or a
-- star; the databases, with all their fallback hosts, are reached over TLS verified against a name,
-- or are the private peer of the tunnel; and Redis has a password, and is on the machine itself or
-- behind verified TLS.
pub validate_settings-Sound :
    (parse : Parsers) (c : Settings)
    → is_live (environment c) ≡ true
    → validate_settings parse (codes "api") c ≡ []
    → Sound parse c
unfolding validate_settings
validate_settings-Sound parse c live e =
    let (bad, count) = check_cidrs parse.prefix_bits (split_commas c.trusted_proxy_cidrs) in
    let (good, e1) =
      tail_of (not (is_local (environment c) || is_live (environment c))) bad
        (not (mem_text (codes "api") (codes "api" ∷ codes "worker" ∷ codes "migrate" ∷ [])))
        ((text_eq (codes "api") (codes "worker")
            || text_eq (codes "api") (codes "api") && c.run_inline_workers)
          && no_roles (worker_role_names c.worker_roles))
        (only_if (is_live (environment c)) (
          check_live parse (text_eq (codes "api") (codes "api"))
            (text_eq (codes "api") (codes "migrate")) count c))
        e in
    check_live-Sound parse count c good refl
      (live_checks parse count c (is_live (environment c)) live e1)
