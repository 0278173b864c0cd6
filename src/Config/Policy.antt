-- ===== src/Config/Policy.antt =====
-- Whether providers need a subscription: `ProviderSubscriptionPolicy` of
-- internal/config/subscription_policy.go. The table has one row, which all replicas share; the mutex
-- makes `Refresh` and `Set` of a replica follow each other. Times are in seconds, `none` is NULL.
use across_backend_api.Prelude.{ℕ, Bool, true, false, ◌&&◌, Option, none, some, List, ◌∷◌, leb}
use across_backend_api.Prelude.Text.{Text, codes}

-- The row of `provider_subscription_access`.
pub record AccessRow : Type 0 where
  pub enforced : Option Bool
  pub start_at : Option ℕ
  pub updated_at : Option ℕ
  pub updated_by : Text

-- A row of `provider_subscription_access_events`.
pub record AccessEvent : Type 0 where
  pub admin : Text
  pub old_enforced : Option Bool
  pub old_start_at : Option ℕ
  pub new_enforced : Bool
  pub new_start_at : Option ℕ

-- `providerSubscriptionSnapshot`
pub record Snapshot : Type 0 where
  pub enforced : Bool
  pub start_at : Option ℕ
  pub source : Text
  pub updated_at : Option ℕ

-- A replica with the tables.
pub record Policy : Type 0 where
  pub row : AccessRow
  pub events : List AccessEvent
  pub fallback : Snapshot
  pub current : Snapshot

-- `NewProviderSubscriptionPolicy`
unfoldable pub new_policy : Bool → Option ℕ → AccessRow → List AccessEvent → Policy
new_policy enforced start_at row events =
    let fallback : Snapshot = record {
      enforced = enforced;
      start_at = start_at;
      source = codes "environment";
      updated_at = none;
    } in
    record { row = row; events = events; fallback = fallback; current = fallback }

abbrev pub has_begun : Option ℕ → ℕ → Bool
has_begun none at_time = true
has_begun (some t) at_time = leb t at_time

-- `Required`
unfoldable pub required : ℕ → Policy → Bool
required at_time p = p.current.enforced && has_begun p.current.start_at at_time

-- `ProviderSubscriptionAccess`
pub record Access : Type 0 where
  pub enforced : Bool
  pub start_at : Option ℕ
  pub is_required : Bool
  pub source : Text
  pub updated_at : Option ℕ

-- `Current`
unfoldable pub current_access : ℕ → Policy → Access
current_access at_time p = record {
  enforced = p.current.enforced;
  start_at = p.current.start_at;
  is_required = p.current.enforced && has_begun p.current.start_at at_time;
  source = p.current.source;
  updated_at = p.current.updated_at;
}

abbrev pub admin_snapshot : Bool → Option ℕ → Option ℕ → Snapshot
admin_snapshot enforced start_at updated_at = record {
  enforced = enforced;
  start_at = start_at;
  source = codes "admin";
  updated_at = updated_at;
}

abbrev pub seen_row : Snapshot → AccessRow → Snapshot
seen_row fallback row = elim row.enforced [
  | none ↦ fallback
  | some b ↦ admin_snapshot b row.start_at row.updated_at
]

-- `Refresh`
unfoldable pub refresh : Bool → Policy → Policy
refresh true p = p
refresh false p = record p { current = seen_row p.fallback p.row }

-- `Set`; any statement that fails rolls all back.
unfoldable pub set_access : Bool → ℕ → Bool → Option ℕ → Text → Policy → Policy
set_access true now enforced start_at admin p = p
set_access false now enforced start_at admin p = record p {
  row = record {
    enforced = some enforced;
    start_at = start_at;
    updated_at = some now;
    updated_by = admin;
  };
  events =
      record {
        admin = admin;
        old_enforced = p.row.enforced;
        old_start_at = p.row.start_at;
        new_enforced = enforced;
        new_start_at = start_at;
      }
      ∷ p.events;
  current = admin_snapshot enforced start_at (some now);
}
