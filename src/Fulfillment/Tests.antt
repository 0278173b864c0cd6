-- ===== src/Fulfillment/Tests.antt =====
-- The fulfilment of one order by its merchant.
use across_backend_api.Prelude.{ℕ, ◌≤◌, ◌≡◌, refl, false, none, some, [], ◌∷◌, length}
use across_backend_api.Prelude.Text.{Text, codes, text_eq}
use across_backend_api.Prelude.Outcome.{Outcome, ok, err}
use across_backend_api.Xp.Rows.{Faults}
use across_backend_api.Fulfillment.Routes.{allowed, valid_fulfillment_transition}
use across_backend_api.Fulfillment.Tables.{
  Fulfillment, FulfillmentEvent, PlacedOrder, Manifest, Shipping,
}
use across_backend_api.Fulfillment.Transition.{
  Body, Request, Reply, replayed, moved, transition_fulfillment,
}
use across_backend_api.Fulfillment.Bulk.{BulkItem, bulk_items}
use across_backend_api.Fulfillment.OneByOne.{one_by_one, bulk_items-one_by_one}
use across_backend_api.Fulfillment.Chains.{AllTraced, events_of, IsTraced-moves}
use across_backend_api.Fulfillment.History.{transition_fulfillment-AllTraced}
use across_backend_api.Fulfillment.Replay.{transition_fulfillment-again}
use across_backend_api.Fulfillment.Dispatch.{
  ManifestRequest, finish_manifest, dispatch_manifest, replay_or_change,
}
use across_backend_api.Fulfillment.Departure.{replay_or_change-AllTraced}

abbrev taken : {E A : Type 0} → A → Outcome E A → A
taken d (ok a) = a
taken d (err e) = d

abbrev fulfillment : Fulfillment
fulfillment = record {
  id = codes "f1";
  order = codes "o1";
  provider = codes "p1";
  route = codes "merchant_local";
  owner = codes "merchant";
  status = codes "pending";
  version = 1;
  carrier = [];
  tracking_number = [];
  tracking_url = [];
  location = [];
  estimated = none;
  accepted_at = none;
  dispatched_at = none;
  delivered_at = none;
}

abbrev placed : PlacedOrder
placed = record {
  id = codes "o1";
  user = codes "u1";
  paid_at = some 3;
  stage = codes "Order Placed";
  order_status = codes "Paid";
  delivered_at = none;
}

abbrev manifest : Manifest
manifest = record {
  id = codes "m1";
  provider = codes "p1";
  code = codes "M-1";
  origin_country = codes "CN";
  origin_city = codes "Yiwu";
  status = codes "open";
  cutoff_at = 50;
  closed_at = none;
  dispatched_at = none;
  version = 1;
}

abbrev shipping : Shipping
shipping = record {
  fulfillments = fulfillment ∷ [];
  orders = placed ∷ [];
  ledger = [];
  events = [];
  tracking = [];
  notifications = [];
  manifests = manifest ∷ [];
  manifest_orders = [];
  manifest_events = [];
}

abbrev body : Body
body = record {
  status = codes "accepted";
  notes = codes " soon ";
  location = [];
  carrier = codes "DHL";
  tracking_number = [];
  tracking_url = [];
  estimated = none;
}

abbrev request : Request
request = record { expected_version = 1; key = codes "k1"; body = body }

abbrev no_faults : Faults
no_faults k = false

abbrev result : Shipping × Reply
result =
    taken (shipping, moved [] 0)
      (transition_fulfillment no_faults 9 (codes "o1") (codes "p1") (codes "u9") request shipping)

accepted :
    transition_fulfillment no_faults 9 (codes "o1") (codes "p1") (codes "u9") request shipping
    ≡ ok (result.0, result.1)
unfolding transition_fulfillment
accepted = refl

shipping-AllTraced : AllTraced shipping
unfolding text_eq
shipping-AllTraced = (((refl, refl), tt), (tt, tt))

transition_fulfillment-AllTraced_example : AllTraced result.0
transition_fulfillment-AllTraced_example =
    transition_fulfillment-AllTraced no_faults 9 (codes "o1") (codes "p1") (codes "u9") request
      shipping result.0 result.1 accepted shipping-AllTraced

transition_fulfillment-again_example :
    (n : ℕ) × (transition_fulfillment no_faults 30
        (codes "o1")
        (codes "p1")
        (codes "u9")
        request
        result.0
      ≡ ok (result.0, replayed (codes "accepted") n))
unfolding transition_fulfillment
transition_fulfillment-again_example =
    transition_fulfillment-again no_faults no_faults 9 30 (codes "o1") (codes "p1") (codes "u9")
      request shipping result.0 result.1 (refl, refl) accepted

abbrev item : BulkItem
item = record { order = codes "o1"; expected_version = 1 }

abbrev bulk_result : Shipping
bulk_result =
    taken shipping (
      bulk_items (λ o. no_faults) 9 (codes "p1") (codes "u9") (codes "b") body (item ∷ []) shipping)

bulk_accepted :
    bulk_items (λ o. no_faults) 9 (codes "p1") (codes "u9") (codes "b") body (item ∷ []) shipping
    ≡ ok bulk_result
unfolding bulk_items
bulk_accepted = refl

bulk_items-one_by_one_example :
    one_by_one (λ o. no_faults) 9 (codes "p1") (codes "u9") (codes "b") body (item ∷ []) shipping
    ≡ ok bulk_result
bulk_items-one_by_one_example =
    bulk_items-one_by_one (λ o. no_faults) 9 (codes "p1") (codes "u9") (codes "b") body (item ∷ [])
      shipping bulk_result (λ o. (refl, refl)) bulk_accepted

-- An imported order that is being processed, in a closed manifest.
abbrev imported : Fulfillment
imported = record fulfillment {
  route = codes "merchant_cross_border";
  status = codes "processing";
  version = 3;
}

abbrev arrival : Text → Text → FulfillmentEvent
arrival from to = record {
  fulfillment = codes "f1";
  actor = codes "u9";
  previous_status = from;
  status = to;
  notes = [];
  location = [];
  metadata = none;
  key = to;
}

abbrev closed_manifest : Manifest
closed_manifest = record manifest { status = codes "closed" }

abbrev port : Shipping
port = record shipping {
  fulfillments = imported ∷ [];
  events =
      arrival (codes "accepted") (codes "processing")
      ∷ arrival (codes "pending") (codes "accepted")
      ∷ [];
  ledger =
      record {
        order = codes "o1";
        event_key = codes "order-paid:o1";
        settlement_status = codes "settled";
      }
      ∷ [];
  manifests = closed_manifest ∷ [];
  manifest_orders = (codes "m1", codes "o1") ∷ [];
}

port-AllTraced : AllTraced port
unfolding text_eq valid_fulfillment_transition
port-AllTraced = ((((refl, refl, (refl, refl, refl)), refl), tt), (tt, tt))

IsTraced-moves_example : (length (events_of (codes "f1") port.events) ≤ 8) × (3 ≤ 9)
IsTraced-moves_example = IsTraced-moves port.events imported port-AllTraced.0.0

abbrev departing : ManifestRequest
departing = record {
  status = codes "dispatched";
  expected_version = 1;
  key = codes "c1";
  notes = [];
}

abbrev departed : Shipping × Reply
departed =
    taken (shipping, moved [] 0)
      (replay_or_change no_faults (λ o. no_faults) 9 (codes "u9") (codes "p1") (codes "dispatched")
        departing closed_manifest none port)

manifest_departed :
    replay_or_change no_faults
      (λ o. no_faults)
      9
      (codes "u9")
      (codes "p1")
      (codes "dispatched")
      departing
      closed_manifest
      none
      port
    ≡ ok (departed.0, moved (codes "dispatched") 2)
unfolding finish_manifest dispatch_manifest allowed text_eq
manifest_departed = refl

replay_or_change-AllTraced_example : AllTraced departed.0
replay_or_change-AllTraced_example =
    replay_or_change-AllTraced no_faults (λ o. no_faults) 9 (codes "u9") (codes "p1")
      (codes "dispatched") departing closed_manifest none port departed.0
      (moved (codes "dispatched") 2) manifest_departed port-AllTraced
