-- ===== src/Fulfillment/Bulk.antt =====
-- The requests of internal/controllers/merchant_fulfillment_controller.go:
-- `parseFulfillmentTransition`, `TransitionMerchantOrder` and `BulkTransitionMerchantOrders`. The
-- parsing of a time and of a UUID are parameters.
use across_backend_api.Prelude.{
  ℕ, Bool, true, not, ◌&&◌, ◌||◌, Option, none, some, List, [], ◌∷◌, ◌++◌, ltb, leb, if◌then◌else◌,
  length,
}
use across_backend_api.Prelude.Text.{Text, codes, is_empty, to_lower, trim_space, mem_text}
use across_backend_api.Prelude.Outcome.{Outcome, ok, err, ◌>>=◌, ◌>>◌, reject_if}
use across_backend_api.Xp.Rows.{Failure, http, database, Faults}
use across_backend_api.Fulfillment.Tables.{Shipping}
use across_backend_api.Fulfillment.Transition.{
  Member, writing_provider, Body, Request, Reply, open_fulfillment, move_fulfillment,
  transition_fulfillment,
}

-- The body of a request, as it is parsed from JSON, with its key and its version.
pub record Payload : Type 0 where
  pub status : Text
  pub expected_version : ℕ
  pub key : Text
  pub notes : Text
  pub location : Text
  pub carrier : Text
  pub tracking_number : Text
  pub tracking_url : Text
  pub estimated : Text

-- `parseEstimatedDelivery`
unfoldable pub parse_estimated_delivery : (Text → Option ℕ) → Text → Outcome Failure (Option ℕ)
unfolding trim_space
parse_estimated_delivery parse value =
    if is_empty (trim_space value)
    then ok none
    else elim (parse value) [ none ↦ err (http 422) | some t ↦ ok (some t) ]

abbrev pub body_of : Payload → Text → Option ℕ → Body
body_of p status estimated = record {
  status = status;
  notes = p.notes;
  location = p.location;
  carrier = p.carrier;
  tracking_number = p.tracking_number;
  tracking_url = p.tracking_url;
  estimated = estimated;
}

-- `parseFulfillmentTransition`, with the header `Idempotency-Key`.
unfoldable pub parse_fulfillment_transition :
    (Text → Option ℕ) → Text → Payload → Outcome Failure Request
unfolding to_lower trim_space parse_estimated_delivery
parse_fulfillment_transition parse header p = do
  let status : Text = to_lower (trim_space p.status)
  let given : Text = trim_space p.key
  let key : Text = if is_empty given then trim_space header else given
  reject_if (is_empty status || ltb p.expected_version 1 || is_empty key || ltb 160 (length key))
      (http 422)
  estimated ← parse_estimated_delivery parse p.estimated
  ok (record {
    expected_version = p.expected_version;
    key = key;
    body = body_of p status estimated;
  })

-- `TransitionMerchantOrder`
unfoldable pub transition_merchant_order :
    Faults
    → (Text → Option ℕ)
    → ℕ
    → Text
    → List Member
    → Text
    → Text
    → Payload
    → Shipping
    → Outcome Failure (Shipping × Reply)
unfolding writing_provider parse_fulfillment_transition transition_fulfillment
transition_merchant_order fails parse now user members header order p db = do
  provider ← writing_provider user members
  req ← parse_fulfillment_transition parse header p
  transition_fulfillment fails now order provider user req db

-- An order of a bulk request, with its version.
pub record BulkItem : Type 0 where
  pub order : Text
  pub expected_version : ℕ

-- The key of an order in a bulk request.
abbrev pub item_key : Text → Text → Text
item_key key order = key ++ codes ":" ++ order

-- One turn of the loop of the bulk request.
unfoldable pub bulk_item :
    Faults → ℕ → Text → Text → Text → Body → BulkItem → Shipping → Outcome Failure Shipping
unfolding open_fulfillment move_fulfillment
bulk_item fails now provider actor key body item db = do
  f ← open_fulfillment fails item.order provider db
  move_fulfillment fails now actor (item_key key item.order) item.expected_version body f db

-- The loop; `fails` says what fails for an order.
unfoldable pub bulk_items :
    (Text → Faults)
    → ℕ
    → Text
    → Text
    → Text
    → Body
    → List BulkItem
    → Shipping
    → Outcome Failure Shipping
unfolding bulk_item
bulk_items fails now provider actor key body [] db = ok db
bulk_items fails now provider actor key body (i ∷ more) db = do
  next ← bulk_item (fails i.order) now provider actor key body i db
  bulk_items fails now provider actor key body more next

-- The test of the orders in a bulk request, which begins with those seen before.
unfoldable pub valid_items : (Text → Bool) → List Text → List BulkItem → Bool
unfolding mem_text
valid_items is_uuid seen [] = true
valid_items is_uuid seen (i ∷ more) =
    let rest = valid_items is_uuid (i.order ∷ seen) more in
    is_uuid i.order && leb 1 i.expected_version && not (mem_text i.order seen) && rest

abbrev bulk_guard : List BulkItem → Text → Text → Bool
bulk_guard items status key =
    ltb (length items) 1
    || ltb 200 (length items)
    || is_empty status
    || is_empty key
    || ltb 100 (length key)

-- `BulkTransitionMerchantOrders`: the tables, and the number of orders.
unfoldable pub bulk_transition_merchant_orders :
    (Text → Faults)
    → Bool
    → (Text → Option ℕ)
    → (Text → Bool)
    → ℕ
    → Text
    → List Member
    → Payload
    → List BulkItem
    → Shipping
    → Outcome Failure (Shipping × ℕ)
unfolding writing_provider to_lower trim_space parse_estimated_delivery valid_items bulk_items
bulk_transition_merchant_orders fails commit_fails parse is_uuid now user members p items db = do
  provider ← writing_provider user members
  let status : Text = to_lower (trim_space p.status)
  let key : Text = trim_space p.key
  reject_if (bulk_guard items status key) (http 422)
  estimated ← parse_estimated_delivery parse p.estimated
  reject_if (not (valid_items is_uuid [] items)) (http 422)
  after ← bulk_items fails now provider user key (body_of p status estimated) items db
  reject_if commit_fails database
  ok (after, length items)
