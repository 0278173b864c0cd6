-- ===== src/Fulfillment/OneByOne.antt =====
-- A bulk request against single requests, internal/controllers/merchant_fulfillment_controller.go.
use across_backend_api.Prelude.{ℕ, suc, ◌≡◌, refl, false, List, [], ◌∷◌}
use across_backend_api.Prelude.Text.{Text}
use across_backend_api.Prelude.Outcome.{Outcome, ok, ◌>>=◌, >>=-ok}
use across_backend_api.Xp.Rows.{Failure, Faults}
use across_backend_api.Fulfillment.Tables.{Shipping, find_order}
use across_backend_api.Fulfillment.Transition.{
  Body, Request, moved, buyer_of, open_fulfillment, transition_fulfillment,
}
use across_backend_api.Fulfillment.Bulk.{BulkItem, item_key, bulk_item, bulk_items}
use across_backend_api.Fulfillment.Steps.{move_fulfillment-ok, advance-ok}

-- The single request for an order of a bulk request.
abbrev pub single : Text → Body → BulkItem → Request
single key body item = record {
  expected_version = item.expected_version;
  key = item_key key item.order;
  body = body;
}

-- Single requests, one after the other, up to the first one that fails.
unfoldable pub one_by_one :
    (Text → Faults)
    → ℕ
    → Text
    → Text
    → Text
    → Body
    → List BulkItem
    → Shipping
    → Outcome Failure Shipping
unfolding transition_fulfillment
one_by_one fails now provider actor key body [] db = ok db
one_by_one fails now provider actor key body (i ∷ more) db = do
  (next, reply) ←
      transition_fulfillment (fails i.order) now i.order provider actor (single key body i) db
  one_by_one fails now provider actor key body more next

-- What only a single request does: it looks for the event, and it commits.
abbrev pub Commits : Faults → Type 0
Commits fails = (fails 1 ≡ false) × (fails 7 ≡ false)

bulk_item-transition_fulfillment :
    (fails : Faults) (now : ℕ) (provider actor key : Text) (body : Body) (item : BulkItem)
    (db after : Shipping)
    → Commits fails
    → bulk_item fails now provider actor key body item db ≡ ok after
    → (n : ℕ) × (transition_fulfillment fails now item.order provider actor
          (single key body item)
          db
        ≡ ok (after, moved body.status n))
unfolding bulk_item transition_fulfillment
bulk_item-transition_fulfillment fails now provider actor key body item db after (one, seven) e =
    let (f, opened, e1) = >>=-ok (open_fulfillment fails item.order provider db) _ e in
    let (same, valid, advanced) =
      move_fulfillment-ok fails now actor (item_key key item.order) item.expected_version body f db
        after e1 in
    let (free, row) =
      advance-ok fails now actor (item_key key item.order) body f
        (buyer_of (find_order f.order db.orders)) db after advanced in
    (suc f.version, rw (opened, one, free, e1, seven) refl)

-- A bulk request that succeeds leaves the tables that single requests for its orders leave, one
-- after the other and each under the key of its order, and these succeed too, where the statements
-- that only they have do not fail.
pub bulk_items-one_by_one :
    (fails : Text → Faults) (now : ℕ) (provider actor key : Text) (body : Body)
    (items : List BulkItem) (db after : Shipping)
    → ((order : Text) → Commits (fails order))
    → bulk_items fails now provider actor key body items db ≡ ok after
    → one_by_one fails now provider actor key body items db ≡ ok after
unfolding bulk_items one_by_one
bulk_items-one_by_one fails now provider actor key body [] db after c e = e
bulk_items-one_by_one fails now provider actor key body (i ∷ more) db after c e =
    let (next, first, rest) =
      >>=-ok (bulk_item (fails i.order) now provider actor key body i db) _ e in
    let (n, single_ok) =
      bulk_item-transition_fulfillment (fails i.order) now provider actor key body i db next
        (c i.order) first in
    rw single_ok (bulk_items-one_by_one fails now provider actor key body more next after c rest)
