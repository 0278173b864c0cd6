-- ===== src/Config/Validate.antt =====
-- `Validate` of internal/config/validate.go, with `DevLoginAllowed` of config.go. What the packages
-- for addresses, URLs and PostgreSQL make of a text is a parameter, `Parsers`; the Redis settings
-- are the result of `RedisOptions`, none for an error.
use across_backend_api.Prelude.{
  ℕ, suc, Bool, true, false, not, ◌&&◌, ◌||◌, Option, none, some, List, [], ◌∷◌, ◌++◌, ltb, ◌==◌,
  if◌then◌else◌, length,
}
use across_backend_api.Prelude.Text.{
  Text, codes, text_eq, is_empty, to_lower, trim_space, contains, mem_text,
}
use across_backend_api.Prelude.Int.{ℤ, pos, ltb_ℤ}
use across_backend_api.Middleware.ClientIp.{split_commas}
use across_backend_api.Workers.{worker_role_names}

-- The parts of a URL that the code reads; `user` is none for nil.
pub record Url : Type 0 where
  pub scheme : Text
  pub hostname : Text
  pub user : Option Text
  pub path : Text
  pub raw_query : Text
  pub fragment : Text

-- What the code reads of a TLS configuration; none is nil.
pub record TlsConfig : Type 0 where
  pub insecure_skip_verify : Bool
  pub server_name : Text

-- The host and the TLS configuration that a PostgreSQL text names, itself or in a fallback.
pub record PgHost : Type 0 where
  pub host : Text
  pub tls_config : Option TlsConfig

pub record IpAddress : Type 0 where
  pub is_private : Bool
  pub is_loopback : Bool
  pub zone : Text

-- The results of `ParsePrefix`, `url.Parse`, `ParseAddr`, `pgconn.ParseConfig` (the host and the
-- fallbacks) and `SplitHostPort` (the host); none is an error.
pub record Parsers : Type 0 where
  pub prefix_bits : Text → Option ℕ
  pub url : Text → Option Url
  pub address : Text → Option IpAddress
  pub pg_hosts : Text → Option (PgHost × List PgHost)
  pub split_host_port : Text → Option Text

pub record RedisSettings : Type 0 where
  pub addr : Text
  pub tls_config : Option TlsConfig
  pub password : Text

pub record Settings : Type 0 where
  pub app_env : Text
  pub enable_dev_login : Bool
  pub http_max_in_flight : ℤ
  pub worker_roles : Text
  pub allowed_origins : Text
  pub trusted_proxy_cidrs : Text
  pub database_url : Text
  pub verified_vpn_host : Text
  pub database_read_url : Text
  pub migration_database_url : Text
  pub database_max_conns : ℤ
  pub database_min_conns : ℤ
  pub database_read_max_conns : ℤ
  pub database_read_min_conns : ℤ
  pub run_inline_workers : Bool
  pub run_migrations : Bool
  pub jwt_secret : Text
  pub enable_mock_payments : Bool
  pub admin_bootstrap_token : Text
  pub redis : Option RedisSettings

pub data Problem : Type 0 where
  app_env cidrs service_role worker_roles dev_login jwt bootstrap mock no_proxy migrations
        inline_workers in_flight origins pool read_pool vpn :
      Problem
  database : Text → Problem
  redis_options redis_tls redis_password : Problem

abbrev pub note : Bool → Problem → List Problem
note true p = p ∷ []
note false p = []

unfoldable pub environment : Settings → Text
unfolding to_lower trim_space
environment c = to_lower (trim_space c.app_env)

abbrev pub is_live : Text → Bool
is_live env = mem_text env (codes "production" ∷ codes "staging" ∷ [])

abbrev pub is_local : Text → Bool
is_local env = mem_text env (codes "development" ∷ codes "test" ∷ [])

-- `DevLoginAllowed`
unfoldable pub dev_login_allowed : Settings → Bool
unfolding environment mem_text
dev_login_allowed c = c.enable_dev_login && is_local (environment c)

abbrev pub is_bad_prefix : Option ℕ → Bool
is_bad_prefix none = true
is_bad_prefix (some n) = n == 0

-- The loop over the prefixes: whether one is bad, and how many stand before it.
unfoldable pub check_cidrs : (Text → Option ℕ) → List Text → Bool × ℕ
unfolding trim_space
check_cidrs parse [] = (false, 0)
check_cidrs parse (raw ∷ more) =
    let (bad, n) = check_cidrs parse more in
    let one : Text = trim_space raw in
    if is_empty one then (bad, n) else if is_bad_prefix (parse one) then (true, 0) else (bad, suc n)

abbrev pub is_nil {ℓ} : {A : Type ℓ} → Option A → Bool
is_nil none = true
is_nil (some x) = false

abbrev pub is_exact : Option Url → Bool
is_exact none = false
is_exact (some u) =
    text_eq u.scheme (codes "https")
    && not (is_empty u.hostname)
    && is_nil u.user
    && is_empty u.path
    && is_empty u.raw_query
    && is_empty u.fragment

unfoldable pub is_origin : (Text → Option Url) → Text → Bool
unfolding trim_space text_eq contains
is_origin parse origin = is_exact (parse (trim_space origin)) && not (contains origin (codes "*"))

unfoldable pub all_origins : (Text → Option Url) → List Text → Bool
unfolding is_origin
all_origins parse [] = true
all_origins parse (o ∷ more) = is_origin parse o && all_origins parse more

abbrev pub all_hosts : (PgHost → Bool) → List PgHost → Bool
all_hosts p [] = true
all_hosts p (h ∷ more) = p h && all_hosts p more

abbrev pub hosts_pass : (PgHost → Bool) → Option (PgHost × List PgHost) → Bool
hosts_pass p none = false
hosts_pass p (some (h, fallbacks)) = p h && all_hosts p fallbacks

-- The certificate is verified.
abbrev pub is_checked : Option TlsConfig → Bool
is_checked none = false
is_checked (some t) = not t.insecure_skip_verify

-- It is verified against a name.
abbrev pub is_verified : Option TlsConfig → Bool
is_verified none = false
is_verified (some t) = not t.insecure_skip_verify && not (is_empty t.server_name)

-- `verifiedPostgresTLS`
unfoldable pub verified_postgres_tls : Parsers → Text → Bool
unfolding trim_space
verified_postgres_tls parse raw =
    not (is_empty (trim_space raw))
    && hosts_pass (λ h. is_verified h.tls_config) (parse.pg_hosts raw)

-- `pinnedVPNDatabase`
unfoldable pub pinned_vpn_database : Parsers → Text → Text → Bool
unfolding text_eq
pinned_vpn_database parse raw peer =
    not (is_empty peer) && hosts_pass (λ h. text_eq h.host peer) (parse.pg_hosts raw)

unfoldable pub check_database : Parsers → Text → Text → Text → List Problem
unfolding verified_postgres_tls pinned_vpn_database
check_database parse name raw peer =
    note (not (verified_postgres_tls parse raw) && not (pinned_vpn_database parse raw peer))
      (database name)

abbrev pub bad_pool : ℤ → ℤ → Bool
bad_pool most least = ltb_ℤ most (pos 2) || ltb_ℤ least (pos 0) || ltb_ℤ most least

-- The databases of a role.
unfoldable pub check_databases : Parsers → Bool → Text → Settings → List Problem
unfolding check_database
check_databases parse true peer c =
    check_database parse (codes "MIGRATION_DATABASE_URL") c.migration_database_url peer
check_databases parse false peer c =
    check_database parse (codes "DATABASE_URL") c.database_url peer
    ++ (if is_empty c.database_read_url
        then []
        else check_database parse (codes "DATABASE_READ_URL") c.database_read_url peer)

abbrev pub is_loopback_address : Option IpAddress → Bool
is_loopback_address none = false
is_loopback_address (some a) = a.is_loopback

unfoldable pub is_loopback_host : Parsers → Option Text → Bool
unfolding text_eq
is_loopback_host parse none = false
is_loopback_host parse (some h) =
    text_eq h (codes "localhost") || is_loopback_address (parse.address h)

unfoldable pub check_redis : Parsers → Option RedisSettings → List Problem
unfolding is_loopback_host
check_redis parse none = redis_options ∷ []
check_redis parse (some r) =
    note
      (not (is_loopback_host parse (parse.split_host_port r.addr)) && not (is_checked r.tls_config))
      redis_tls
    ++ note (is_empty r.password) redis_password

unfoldable pub check_service : Settings → List Problem
unfolding trim_space
check_service c =
    note c.enable_dev_login dev_login
    ++ (note (ltb (length (trim_space c.jwt_secret)) 32) jwt
        ++ (note (not (is_empty c.admin_bootstrap_token)) bootstrap
            ++ note c.enable_mock_payments mock))

unfoldable pub check_api : Parsers → ℕ → Settings → List Problem
unfolding all_origins split_commas
check_api parse proxies c =
    note (proxies == 0) no_proxy
    ++ (note c.run_migrations migrations
        ++ (note c.run_inline_workers inline_workers
            ++ (note (ltb_ℤ c.http_max_in_flight (pos 1)) in_flight
                ++ note (not (all_origins parse.url (split_commas c.allowed_origins))) origins)))

abbrev pub only_if : Bool → List Problem → List Problem
only_if true ps = ps
only_if false ps = []

-- The address of a tunnel's peer: a private one, without a zone.
abbrev pub is_peer : Option IpAddress → Bool
is_peer none = false
is_peer (some a) = a.is_private && is_empty a.zone

abbrev pub vpn_peer : Parsers → Text → Text
vpn_peer parse host = if not (is_empty host) && not (is_peer (parse.address host)) then [] else host

-- The tests of a live environment.
unfoldable pub check_live : Parsers → Bool → Bool → ℕ → Settings → List Problem
unfolding check_service check_api check_databases check_redis trim_space text_eq
check_live parse is_api is_migrate proxies c =
    let host : Text = trim_space c.verified_vpn_host in
    only_if (not is_migrate) (check_service c)
    ++ (only_if is_api (check_api parse proxies c)
        ++ (note (bad_pool c.database_max_conns c.database_min_conns) pool
            ++ (note
                  (not (is_empty c.database_read_url)
                    && not (text_eq c.database_read_url c.database_url)
                    && bad_pool c.database_read_max_conns c.database_read_min_conns)
                  read_pool
                ++ (note (not (is_empty host) && not (is_peer (parse.address host))) vpn
                    ++ (check_databases parse is_migrate (vpn_peer parse host) c
                        ++ only_if (not is_migrate) (check_redis parse c.redis))))))

abbrev pub no_roles : Option (List Text) → Bool
no_roles none = true
no_roles (some rs) = false

-- `Validate`: the problems; there is an error when there is one.
unfoldable pub validate_settings : Parsers → Text → Settings → List Problem
unfolding environment check_cidrs check_live mem_text text_eq split_commas worker_role_names
validate_settings parse role c =
    let env : Text = environment c in
    let (bad, proxies) = check_cidrs parse.prefix_bits (split_commas c.trusted_proxy_cidrs) in
    let is_api : Bool = text_eq role (codes "api") in
    let is_worker : Bool = text_eq role (codes "worker") in
    note (not (is_local env || is_live env)) app_env
    ++ (note bad cidrs
        ++ (note (not (mem_text role (codes "api" ∷ codes "worker" ∷ codes "migrate" ∷ [])))
              service_role
            ++ (note
                  ((is_worker || is_api && c.run_inline_workers)
                    && no_roles (worker_role_names c.worker_roles))
                  worker_roles
                ++ only_if (is_live env)
                    (check_live parse is_api (text_eq role (codes "migrate")) proxies c))))
