-- ===== src/Fulfillment/Tables.antt =====
-- The tables that the fulfilment of orders reads and writes,
-- internal/controllers/merchant_fulfillment_controller.go. Times are in seconds, `none` is NULL.
-- The prose and the data of a notification are left out.
use across_backend_api.Prelude.{
  ℕ, suc, Bool, true, false, ◌&&◌, Option, none, some, List, [], ◌∷◌, ◌++◌, ◌==◌, if◌then◌else◌,
}
use across_backend_api.Prelude.Text.{Text, codes, text_eq}
use across_backend_api.Xp.Rows.{Notification}
use across_backend_api.Xp.Tables.{has_notification}

-- A row of `order_fulfillments`; the columns `order` and `id` are unique.
pub record Fulfillment : Type 0 where
  pub id : Text
  pub order : Text
  pub provider : Text
  pub route : Text
  pub owner : Text
  pub status : Text
  pub version : ℕ
  pub carrier : Text
  pub tracking_number : Text
  pub tracking_url : Text
  pub location : Text
  pub estimated : Option ℕ
  pub accepted_at : Option ℕ
  pub dispatched_at : Option ℕ
  pub delivered_at : Option ℕ

-- A row of `orders`.
pub record PlacedOrder : Type 0 where
  pub id : Text
  pub user : Text
  pub paid_at : Option ℕ
  pub stage : Text
  pub order_status : Text
  pub delivered_at : Option ℕ

-- A row of `merchant_ledger`. The table stands newest first.
pub record LedgerRow : Type 0 where
  pub order : Text
  pub event_key : Text
  pub settlement_status : Text

-- The carrier, the tracking number and its address.
abbrev pub Metadata : Type 0
Metadata = Text × Text × Text

-- A row of `fulfillment_events`. The table stands newest first.
pub record FulfillmentEvent : Type 0 where
  pub fulfillment : Text
  pub actor : Text
  pub previous_status : Text
  pub status : Text
  pub notes : Text
  pub location : Text
  pub metadata : Option Metadata
  pub key : Text

pub record TrackingEvent : Type 0 where
  pub order : Text
  pub stage : Text
  pub notes : Text

pub record Manifest : Type 0 where
  pub id : Text
  pub provider : Text
  pub code : Text
  pub origin_country : Text
  pub origin_city : Text
  pub status : Text
  pub cutoff_at : ℕ
  pub closed_at : Option ℕ
  pub dispatched_at : Option ℕ
  pub version : ℕ

pub record ManifestEvent : Type 0 where
  pub manifest : Text
  pub actor : Text
  pub previous_status : Text
  pub status : Text
  pub notes : Text
  pub key : Text

pub record Shipping : Type 0 where
  pub fulfillments : List Fulfillment
  pub orders : List PlacedOrder
  pub ledger : List LedgerRow
  pub events : List FulfillmentEvent
  pub tracking : List TrackingEvent
  pub notifications : List Notification
  pub manifests : List Manifest
  pub manifest_orders : List (Text × Text)  -- manifest and order
  pub manifest_events : List ManifestEvent

unfoldable pub find_order : Text → List PlacedOrder → Option PlacedOrder
unfolding text_eq
find_order id [] = none
find_order id (o ∷ more) = let rest = find_order id more in if text_eq o.id id then some o else rest

abbrev pub is_paid : Option PlacedOrder → Bool
is_paid none = false
is_paid (some o) = elim o.paid_at [ none ↦ false | some t ↦ true ]

-- `COALESCE((SELECT settlement_status FROM merchant_ledger WHERE order_id=o.id
-- ORDER BY created_at DESC LIMIT 1),'pending')`
unfoldable pub latest_settlement : Text → List LedgerRow → Text
unfolding text_eq
latest_settlement order [] = codes "pending"
latest_settlement order (r ∷ more) =
    let rest = latest_settlement order more in
    if text_eq r.order order then r.settlement_status else rest

-- The settlement of the row `order-paid:` of an order.
unfoldable pub paid_settlement : Text → List LedgerRow → Text
unfolding text_eq
paid_settlement order [] = codes "pending"
paid_settlement order (r ∷ more) =
    let rest = paid_settlement order more in
    if text_eq r.order order && text_eq r.event_key (codes "order-paid:" ++ order)
    then r.settlement_status
    else rest

-- The status of the event of a fulfilment with a key.
unfoldable pub find_event : Text → Text → List FulfillmentEvent → Option Text
unfolding text_eq
find_event fulfillment key [] = none
find_event fulfillment key (e ∷ more) =
    let rest = find_event fulfillment key more in
    if text_eq e.fulfillment fulfillment && text_eq e.key key then some e.status else rest

-- `UPDATE order_fulfillments SET ... WHERE id=$1 AND version=$2`, with the rows it met.
unfoldable pub update_fulfillment :
    Text → ℕ → (Fulfillment → Fulfillment) → List Fulfillment → List Fulfillment × ℕ
unfolding text_eq
update_fulfillment id version change [] = ([], 0)
update_fulfillment id version change (f ∷ more) =
    let (rest, n) = update_fulfillment id version change more in
    if text_eq f.id id && f.version == version then (change f ∷ rest, suc n) else (f ∷ rest, n)

-- `UPDATE orders SET ... WHERE id=$1`
unfoldable pub update_order :
    Text → (PlacedOrder → PlacedOrder) → List PlacedOrder → List PlacedOrder
unfolding text_eq
update_order id change [] = []
update_order id change (o ∷ more) =
    (if text_eq o.id id then change o else o) ∷ update_order id change more

-- `insertNotification`, under a key that is not empty
unfoldable pub notify : Text → Text → Text → List Notification → List Notification
unfolding has_notification
notify user order key ns =
    if has_notification key ns
    then ns
    else record { user = user; order = order; kind = codes "fulfillment_update"; event_key = key }
      ∷ ns
