-- ===== src/Config/Tests.antt =====
-- The policy of two replicas, and a configuration for production.
use across_backend_api.Prelude.{◌≡◌, refl, true, false, none, some, List, [], ◌∷◌, if◌then◌else◌}
use across_backend_api.Prelude.Text.{codes, text_eq, to_lower, trim_space, mem_text}
use across_backend_api.Prelude.Int.{pos}
use across_backend_api.Config.Policy.{AccessRow, Policy, new_policy, required}
use across_backend_api.Config.PolicyModel.{
  Promise, Happening, saves, refreshes, saved_elsewhere, promised, promised_required, policy_run,
  Implements, required-promised,
}
use across_backend_api.Config.Validate.{
  TlsConfig, Parsers, Settings, environment, is_live, validate_settings,
}
use across_backend_api.Config.Accepted.{Sound, validate_settings-Sound}

abbrev first_row : AccessRow
first_row = record { enforced = none; start_at = none; updated_at = none; updated_by = [] }

abbrev first_policy : Policy
first_policy = new_policy false none first_row []

abbrev nothing_saved : Promise
nothing_saved = record { saved = none; known = none }

starts-Implements : Implements (false, none) first_policy nothing_saved
unfolding new_policy
starts-Implements = record { environment = refl; saved = refl; known = refl }

abbrev day : List Happening
day =
    saves false 5 true (some 20) (codes "ann")
    ∷ saved_elsewhere 9 false none (codes "bob")
    ∷ refreshes true
    ∷ []

required-promised_example :
    required 30 (policy_run day first_policy)
    ≡ promised_required (false, none) 30 (promised day nothing_saved)
required-promised_example =
    required-promised (false, none) day first_policy nothing_saved 30 starts-Implements

abbrev verified : TlsConfig
verified = record { insecure_skip_verify = false; server_name = codes "db" }

-- Parsers that know the texts of the configuration below.
abbrev parsers : Parsers
parsers = record {
  prefix_bits = λ t. if text_eq t (codes "10.0.0.0/8") then some 8 else none;
  url = λ t.
      if text_eq t (codes "https://across.io")
      then some (record {
        scheme = codes "https";
        hostname = codes "across.io";
        user = none;
        path = [];
        raw_query = [];
        fragment = [];
      })
      else none;
  address = λ t. none;
  split_host_port = λ t. none;
  pg_hosts = λ t.
      if text_eq t (codes "postgres://db")
      then some (record { host = codes "db"; tls_config = some verified }, [])
      else none;
}

abbrev settings : Settings
settings = record {
  app_env = codes " Production";
  enable_dev_login = false;
  http_max_in_flight = pos 256;
  worker_roles = codes "none";
  allowed_origins = codes "https://across.io";
  trusted_proxy_cidrs = codes "10.0.0.0/8";
  database_url = codes "postgres://db";
  verified_vpn_host = [];
  database_read_url = [];
  migration_database_url = [];
  database_max_conns = pos 20;
  database_min_conns = pos 2;
  database_read_max_conns = pos 0;
  database_read_min_conns = pos 0;
  run_inline_workers = false;
  run_migrations = false;
  jwt_secret = codes "0123456789abcdef0123456789abcdef";
  enable_mock_payments = false;
  admin_bootstrap_token = [];
  redis = some (record { addr = codes "r:1"; tls_config = some verified; password = codes "p" });
}

settings_live : is_live (environment settings) ≡ true
unfolding environment mem_text to_lower trim_space
settings_live = refl

settings_accepted : validate_settings parsers (codes "api") settings ≡ []
unfolding validate_settings text_eq
settings_accepted = refl

validate_settings-Sound_example : Sound parsers settings
validate_settings-Sound_example =
    validate_settings-Sound parsers settings settings_live settings_accepted
