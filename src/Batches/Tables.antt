-- ===== src/Batches/Tables.antt =====
-- The tables behind the life of batches, and the queries on them,
-- internal/controllers/batch_lifecycle_controller.go.
use across_backend_api.Prelude.{
  ℕ, suc, ◌+◌, Bool, ◌&&◌, ◌||◌, Option, none, some, List, [], ◌∷◌, if◌then◌else◌,
}
use across_backend_api.Prelude.Text.{Text, codes, text_eq, is_empty, trim_space}
use across_backend_api.Batches.Rules.{BatchStatus}
use across_backend_api.Prelude.Int.{ℤ}

-- A time and the administrator who acted then.
abbrev pub Mark : Type 0
Mark = Option (ℕ × Text)

-- A row of `order_batches`.
pub record Batch : Type 0 where
  pub id : Text
  pub status : BatchStatus
  pub version : ℕ
  pub location : Text
  pub notes : Text
  pub membership_locked : Bool
  pub closed_at : Option ℕ
  pub reconciled : Mark
  pub funds : Option (ℤ × Text × Text)
  pub funds_sent : Mark
  pub funds_acknowledged : Mark
  pub procurement_completed : Mark

-- `orders`, with the purchase of each item: whether it is unresolved.
pub record BatchOrder : Type 0 where
  pub id : Text
  pub batch : Text
  pub counts_as_paid : Bool  -- `order_status IN ('Paid', 'Shipped')`
  pub stage : Text
  pub status : Text
  pub pickup_location : Text
  pub pickup_phone : Text
  pub delivery_notes : Text
  pub unresolved_items : ℕ

-- `batch_events`
pub record Event : Type 0 where
  pub batch : Text
  pub actor : Text
  pub kind : Text
  pub previous : BatchStatus
  pub status : BatchStatus
  pub location : Text
  pub notes : Text

pub record Store : Type 0 where
  pub batches : List Batch
  pub orders : List BatchOrder
  pub events : List Event
  pub tracking : List (Text × Text)  -- order and stage
  pub notified : List (Text × Text × Text)  -- batch, action and order: the event key

unfoldable pub find_batch : Text → List Batch → Option Batch
unfolding text_eq
find_batch id [] = none
find_batch id (b ∷ bs) = let rest = find_batch id bs in if text_eq b.id id then some b else rest

unfoldable pub paid_orders : Text → List BatchOrder → ℕ
unfolding text_eq
paid_orders id [] = 0
paid_orders id (o ∷ os) =
    let rest = paid_orders id os in
    if text_eq o.batch id && o.counts_as_paid then suc rest else rest

unfoldable pub unresolved_items : Text → List BatchOrder → ℕ
unfolding text_eq
unresolved_items id [] = 0
unresolved_items id (o ∷ os) =
    let rest = unresolved_items id os in
    if text_eq o.batch id then o.unresolved_items + rest else rest

-- `nullableAdminID`
unfoldable pub nullable_admin_id : Text → Text
unfolding trim_space text_eq
nullable_admin_id admin =
    if is_empty (trim_space admin) || text_eq admin (codes "bootstrap") then [] else admin
