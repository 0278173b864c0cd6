-- ===== src/Batches/Transition.antt =====
-- `TransitionBatch` and `CloseExpiredBatches` of internal/controllers/batch_lifecycle_controller.go.
-- An actor is empty for NULL.
use across_backend_api.Prelude.{
  ℕ, zero, suc, Bool, true, false, not, ◌&&◌, ◌||◌, Option, none, some, List, [], ◌∷◌, ◌++◌, ◌==◌,
  if◌then◌else◌, length,
}
use across_backend_api.Prelude.Text.{Text, codes, text_eq, is_empty}
use across_backend_api.Prelude.Outcome.{Outcome, ok, err, ◌>>=◌, ◌>>◌, reject_if}
use across_backend_api.Batches.Rules.{
  BatchStatus, collecting_funds, closed, purchasing, enroute_nigeria, arrived_local,
  ready_for_pickup, Action, close_collection, approve_procurement, reconcile,
  send_procurement_funds, acknowledge_procurement_funds, start_procurement, complete_procurement,
  dispatch, confirm_arrival, confirm_ready_for_pickup, get_ready_for_pickup, target,
  validate_batch_action, TransitionRequest, default_currency, validate_payload,
}
use across_backend_api.Prelude.Int.{ℤ, pos, negsuc}
use across_backend_api.Batches.Tables.{
  Mark, Batch, BatchOrder, Event, Store, find_batch, paid_orders, unresolved_items,
  nullable_admin_id,
}

abbrev or_kept : Text → Text → Text
or_kept new old = if is_empty new then old else new

abbrev mark_if : Bool → ℕ → Text → Mark → Mark
mark_if true now actor old = some (now, actor)
mark_if false now actor old = old

abbrev first_time : Option ℕ → ℕ → Option ℕ
first_time (some t) now = some t
first_time none now = some now

abbrev is_close : Action → Bool
is_close close_collection = true
is_close _ = false

abbrev is_reconciliation : Action → Bool
is_reconciliation reconcile = true
is_reconciliation approve_procurement = true
is_reconciliation _ = false

abbrev is_sending : Action → Bool
is_sending send_procurement_funds = true
is_sending _ = false

abbrev is_acknowledgement : Action → Bool
is_acknowledgement acknowledge_procurement_funds = true
is_acknowledgement start_procurement = true
is_acknowledgement _ = false

abbrev is_completion : Action → Bool
is_completion complete_procurement = true
is_completion dispatch = true
is_completion _ = false

-- The update of the batch's row.
unfoldable pub move_batch : ℕ → Text → Action → Text → TransitionRequest → Batch → Batch
unfolding target default_currency
move_batch now actor a location req b = record b {
  status = target a;
  version = suc b.version;
  location = or_kept location b.location;
  notes = or_kept req.notes b.notes;
  membership_locked = is_close a || b.membership_locked;
  closed_at = if is_close a then first_time b.closed_at now else b.closed_at;
  reconciled = mark_if (is_reconciliation a) now actor b.reconciled;
  funds =
      if is_sending a
      then some (req.amount, default_currency req.currency, req.reference)
      else b.funds;
  funds_sent = mark_if (is_sending a) now actor b.funds_sent;
  funds_acknowledged = mark_if (is_acknowledgement a) now actor b.funds_acknowledged;
  procurement_completed = mark_if (is_completion a) now actor b.procurement_completed;
}

unfoldable pub replace_batch : Text → (Batch → Batch) → List Batch → List Batch
unfolding text_eq
replace_batch id f [] = []
replace_batch id f (b ∷ bs) = (if text_eq b.id id then f b else b) ∷ replace_batch id f bs

-- The tracking stage and the order status that a batch's status gives its orders.
unfoldable pub order_effects : BatchStatus → Option (Text × Text)
order_effects purchasing = some (codes "Arrived at International Hub", [])
order_effects enroute_nigeria = some (codes "In Transit Internationally", codes "Shipped")
order_effects arrived_local = some (codes "Arrived at Local Hub", [])
order_effects ready_for_pickup = some (codes "Arrived at Local Hub", [])
order_effects _ = none

abbrev affect_order : Text → Text → TransitionRequest → BatchOrder → BatchOrder
affect_order stage status req o = record o {
  counts_as_paid = not (is_empty status) || o.counts_as_paid;
  stage = stage;
  status = or_kept status o.status;
  pickup_location = or_kept req.pickup_location o.pickup_location;
  pickup_phone = or_kept req.pickup_phone o.pickup_phone;
  delivery_notes = or_kept req.notes o.delivery_notes;
}

unfoldable pub affect_orders :
    Text → Text → Text → TransitionRequest → List BatchOrder → List BatchOrder
unfolding text_eq
affect_orders id stage status req [] = []
affect_orders id stage status req (o ∷ os) =
    (if text_eq o.batch id then affect_order stage status req o else o)
    ∷ affect_orders id stage status req os

unfoldable pub track_orders : Text → Text → List BatchOrder → List (Text × Text)
unfolding text_eq
track_orders id stage [] = []
track_orders id stage (o ∷ os) =
    let rest = track_orders id stage os in if text_eq o.batch id then (o.id, stage) ∷ rest else rest

-- `applyTransitionOrderEffects`
unfoldable pub apply_order_effects : Text → BatchStatus → TransitionRequest → Store → Store
unfolding order_effects affect_orders track_orders
apply_order_effects id status req s = elim (order_effects status) [
  | none ↦ s
  | some (stage, order_status) ↦ record s {
    orders = affect_orders id stage order_status req s.orders;
    tracking = track_orders id stage s.orders ++ s.tracking;
  }
]

unfoldable pub is_notified : Action → Bool
is_notified start_procurement = true
is_notified complete_procurement = true
is_notified dispatch = true
is_notified confirm_arrival = true
is_notified get_ready_for_pickup = true
is_notified confirm_ready_for_pickup = true
is_notified _ = false

unfoldable pub has_key : Text → Text → Text → List (Text × Text × Text) → Bool
unfolding text_eq
has_key b a o [] = false
has_key b a o ((b', a', o') ∷ rest) =
    text_eq b' b && text_eq a' a && text_eq o' o || has_key b a o rest

unfoldable pub notify_orders :
    Text → Text → List BatchOrder → List (Text × Text × Text) → List (Text × Text × Text)
unfolding has_key
notify_orders id action [] keys = keys
notify_orders id action (o ∷ os) keys =
    let rest = notify_orders id action os keys in
    if text_eq o.batch id && not (has_key id action o.id rest)
    then (id, action, o.id) ∷ rest
    else rest

abbrev pub version_differs : ℤ → ℕ → Bool
version_differs (pos zero) version = false
version_differs (pos (suc n)) version = not (suc n == version)
version_differs (negsuc n) version = false

-- The location that a transition records.
abbrev pub new_location : TransitionRequest → Text
new_location req = or_kept req.pickup_location req.location

abbrev pub transition_event : Text → Text → Batch → Action → TransitionRequest → Event
transition_event id actor b a req = record {
  batch = id;
  actor = actor;
  kind = req.action;
  previous = b.status;
  status = target a;
  location = new_location req;
  notes = req.notes;
}

-- The tables that a transition of the row `b` commits.
unfoldable pub after_transition :
    ℕ → Text → Text → Action → TransitionRequest → Batch → Store → Store
unfolding move_batch replace_batch apply_order_effects notify_orders is_notified
after_transition now actor id a req b s =
    let effected = apply_order_effects id (target a) req s in
    record effected {
      batches = replace_batch id (move_batch now actor a (new_location req) req) s.batches;
      events = transition_event id actor b a req ∷ s.events;
      notified =
          if is_notified a
          then notify_orders id req.action effected.orders s.notified
          else s.notified;
    }

-- `TransitionBatch`, behind the parsing and trimming of the body; the reply is the new version. An
-- error is an HTTP status.
unfoldable pub transition_batch :
    (ℕ → Bool) → ℕ → Text → Text → Text → TransitionRequest → Store → Outcome ℕ (Store × ℕ)
unfolding find_batch validate_batch_action validate_payload after_transition nullable_admin_id
    paid_orders unresolved_items
transition_batch fails now admin role id req s = do
  reject_if (fails 0 || fails 1) 500
  elim (find_batch id s.batches) [
    | none ↦ err 404
    | some b ↦ (do
      reject_if (version_differs req.expected_version b.version) 409
      a ← validate_batch_action role b.status req.action
      reject_if (fails 2) 500
      validate_payload a (paid_orders id s.orders) (unresolved_items id s.orders) req
      reject_if (fails 3 || fails 4 || fails 5 || fails 6 || fails 7) 500
      ok (after_transition now (nullable_admin_id admin) id a req b s, suc b.version))
  ]

-- `CloseExpiredBatches`: `expired` says whose day has ended in its time zone.
abbrev pub is_due : (Batch → Bool) → Batch → Bool
is_due expired b = elim b.status [
  | collecting_funds ↦ not b.membership_locked && expired b
  | _ ↦ false
]

abbrev close_batch : ℕ → Batch → Batch
close_batch now b = record b {
  status = closed;
  membership_locked = true;
  closed_at = first_time b.closed_at now;
  version = suc b.version;
}

unfoldable pub close_batches : (Batch → Bool) → ℕ → List Batch → List Batch × List Event
close_batches expired now [] = ([], [])
close_batches expired now (b ∷ bs) =
    let (rest, events) = close_batches expired now bs in
    if is_due expired b
    then (
      close_batch now b ∷ rest,
      record {
        batch = b.id;
        actor = [];
        kind = codes "automatic_daily_close";
        previous = collecting_funds;
        status = closed;
        location = [];
        notes = codes "Operational day ended";
      }
          ∷ events,
    )
    else (b ∷ rest, events)

unfoldable pub close_expired_batches :
    (ℕ → Bool) → (Batch → Bool) → ℕ → Store → Outcome ℕ (Store × ℕ)
unfolding close_batches
close_expired_batches fails expired now s = do
  reject_if (fails 0 || fails 1) 500
  let (batches, events) = close_batches expired now s.batches
  reject_if (fails 2 || fails 3) 500
  ok (record s { batches = batches; events = events ++ s.events }, length events)
