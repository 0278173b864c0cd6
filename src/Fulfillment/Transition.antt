-- ===== src/Fulfillment/Transition.antt =====
-- `TransitionMerchantOrder`, `BulkTransitionMerchantOrders`, `transitionFulfillment` and
-- `parseFulfillmentTransition` of internal/controllers/merchant_fulfillment_controller.go, with
-- `providerForUser` of provider_marketplace_controller.go. The parsing of a time and of a UUID are
-- inputs; a negative version in a request is refused as 0 is. The statements of a handler are
-- numbered in their order: 0 reads the fulfilment, 1 looks for the event, 2 to 6 write, 7 commits.
use across_backend_api.Prelude.{
  ℕ, suc, Bool, true, false, not, ◌&&◌, ◌||◌, Option, none, some, List, [], ◌∷◌, ◌++◌, ◌==◌,
  if◌then◌else◌,
}
use across_backend_api.Prelude.Text.{Text, codes, text_eq, is_empty, trim_space, mem_text}
use across_backend_api.Prelude.Outcome.{Outcome, ok, err, ◌>>=◌, ◌>>◌, reject_if}
use across_backend_api.Xp.Rows.{Failure, http, database, Faults, statement}
use across_backend_api.Fulfillment.Routes.{
  valid_fulfillment_transition, legacy_stage_for_fulfillment,
}
use across_backend_api.Fulfillment.Tables.{
  Fulfillment, PlacedOrder, FulfillmentEvent, Shipping, find_order, is_paid, latest_settlement,
  find_event, update_fulfillment, update_order, notify,
}

-- A row of `provider_members` with whether its provider is active.
pub record Member : Type 0 where
  pub user : Text
  pub provider : Text
  pub role : Text
  pub is_active : Bool
  pub provider_active : Bool

-- `providerForUser`: the provider and the role.
unfoldable pub provider_for_user : Text → List Member → Option (Text × Text)
unfolding text_eq
provider_for_user user [] = none
provider_for_user user (m ∷ more) =
    let rest = provider_for_user user more in
    if text_eq m.user user && m.is_active && m.provider_active
    then some (m.provider, m.role)
    else rest

-- The provider of a user who may write.
unfoldable pub writing_provider : Text → List Member → Outcome Failure Text
unfolding provider_for_user mem_text
writing_provider user members = elim (provider_for_user user members) [
  | none ↦ err (http 403)
  | some (provider, role) ↦
      if mem_text role (codes "owner" ∷ codes "manager" ∷ codes "staff" ∷ [])
      then ok provider
      else err (http 403)
]

-- What a request says of the next stage.
pub record Body : Type 0 where
  pub status : Text
  pub notes : Text
  pub location : Text
  pub carrier : Text
  pub tracking_number : Text
  pub tracking_url : Text
  pub estimated : Option ℕ

abbrev pub earlier : Option ℕ → ℕ → Option ℕ
earlier (some t) now = some t
earlier none now = some now

abbrev set_if : Bool → Option ℕ → ℕ → Option ℕ
set_if true t now = earlier t now
set_if false t now = t

-- `COALESCE(NULLIF($4,''),carrier)`
abbrev or_old : Text → Text → Text
or_old new old = if is_empty new then old else new

abbrev or_known : Option ℕ → Option ℕ → Option ℕ
or_known (some t) old = some t
or_known none old = old

-- The update of a fulfilment.
unfoldable pub fulfilled : ℕ → Body → Fulfillment → Fulfillment
unfolding trim_space text_eq mem_text
fulfilled now body f = record f {
  status = body.status;
  version = suc f.version;
  carrier = or_old (trim_space body.carrier) f.carrier;
  tracking_number = or_old (trim_space body.tracking_number) f.tracking_number;
  tracking_url = or_old (trim_space body.tracking_url) f.tracking_url;
  location = or_old (trim_space body.location) f.location;
  estimated = or_known body.estimated f.estimated;
  accepted_at = set_if (text_eq body.status (codes "accepted")) f.accepted_at now;
  dispatched_at =
      set_if
        (mem_text body.status (codes "dispatched_from_origin" ∷ codes "international_transit" ∷ []))
        f.dispatched_at now;
  delivered_at = set_if (text_eq body.status (codes "delivered")) f.delivered_at now;
}

-- The update of the order.
unfoldable pub staged : ℕ → Text × Text → PlacedOrder → PlacedOrder
unfolding text_eq
staged now (stage, status) o = record o {
  stage = stage;
  order_status = status;
  delivered_at = set_if (text_eq status (codes "Delivered")) o.delivered_at now;
}

unfoldable pub moved_event : Text → Text → Body → Fulfillment → FulfillmentEvent
unfolding trim_space
moved_event actor key body f = record {
  fulfillment = f.id;
  actor = actor;
  previous_status = f.status;
  status = body.status;
  notes = trim_space body.notes;
  location = trim_space body.location;
  metadata =
      some (trim_space body.carrier, trim_space body.tracking_number, trim_space body.tracking_url);
  key = key;
}

-- The tables after the writes of a transition, on the updated rows of the fulfilments.
unfoldable pub advanced :
    ℕ → Text → Text → Body → Fulfillment → Text → List Fulfillment → Shipping → Shipping
unfolding moved_event staged update_order notify legacy_stage_for_fulfillment trim_space
advanced now actor key body f buyer rows db =
    let (stage, status) = legacy_stage_for_fulfillment f.route body.status in
    record db {
      fulfillments = rows;
      orders = update_order f.order (staged now (stage, status)) db.orders;
      events = moved_event actor key body f ∷ db.events;
      tracking =
          record { order = f.order; stage = stage; notes = trim_space body.notes } ∷ db.tracking;
      notifications =
          notify buyer f.order (codes "fulfillment:" ++ f.id ++ codes ":" ++ key) db.notifications;
    }

abbrev pub is_taken : Option Text → Bool
is_taken none = false
is_taken (some s) = true

-- The writes of a transition: the row must still have its version, and the key must be new.
unfoldable pub advance :
    Faults → ℕ → Text → Text → Body → Fulfillment → Text → Shipping → Outcome Failure Shipping
unfolding advanced update_fulfillment fulfilled find_event
advance fails now actor key body f buyer db = do
  let (rows, n) = update_fulfillment f.id f.version (fulfilled now body) db.fulfillments
  reject_if (fails 2 || not (n == 1)) (http 409)
  statement fails 3
  reject_if (fails 4 || is_taken (find_event f.id key db.events)) database
  statement fails 5
  statement fails 6
  ok (advanced now actor key body f buyer rows db)

-- A fulfilment of a paid order that a merchant has to do.
abbrev pub is_assigned : Text → Text → List PlacedOrder → Fulfillment → Bool
is_assigned order provider orders f =
    text_eq f.order order
    && is_paid (find_order f.order orders)
    && text_eq f.provider provider
    && text_eq f.owner (codes "merchant")

unfoldable pub find_fulfillment :
    Text → Text → List PlacedOrder → List Fulfillment → Option Fulfillment
unfolding text_eq find_order
find_fulfillment order provider orders [] = none
find_fulfillment order provider orders (f ∷ more) =
    let rest = find_fulfillment order provider orders more in
    if is_assigned order provider orders f then some f else rest

abbrev pub buyer_of : Option PlacedOrder → Text
buyer_of none = []
buyer_of (some o) = o.user

abbrev pub assigned : Option Fulfillment → Outcome Failure Fulfillment
assigned none = err (http 404)
assigned (some f) = ok f

-- An imported order waits for the settlement of its seller.
unfoldable pub is_blocked : Fulfillment → Shipping → Bool
unfolding text_eq latest_settlement
is_blocked f db =
    text_eq f.route (codes "merchant_cross_border")
    && not (text_eq (latest_settlement f.order db.ledger) (codes "settled"))

-- What both handlers read first.
unfoldable pub open_fulfillment : Faults → Text → Text → Shipping → Outcome Failure Fulfillment
unfolding find_fulfillment is_blocked
open_fulfillment fails order provider db = do
  statement fails 0
  f ← assigned (find_fulfillment order provider db.orders db.fulfillments)
  reject_if (is_blocked f db) (http 409)
  ok f

pub data Reply : Type 0 where
  replayed : Text → ℕ → Reply  -- the status of the event, and the version
  moved : Text → ℕ → Reply

-- A request behind its parsing.
pub record Request : Type 0 where
  pub expected_version : ℕ
  pub key : Text
  pub body : Body

-- The guards of a move, and its writes.
unfoldable pub move_fulfillment :
    Faults → ℕ → Text → Text → ℕ → Body → Fulfillment → Shipping → Outcome Failure Shipping
unfolding valid_fulfillment_transition advance find_order
move_fulfillment fails now actor key expected body f db = do
  reject_if (not (f.version == expected)) (http 409)
  reject_if (not (valid_fulfillment_transition f.route f.owner f.status body.status)) (http 409)
  advance fails now actor key body f (buyer_of (find_order f.order db.orders)) db

abbrev pub replay_or_move :
    Faults
    → ℕ
    → Text
    → Request
    → Fulfillment
    → Option Text
    → Shipping
    → Outcome Failure (Shipping × Reply)
replay_or_move fails now actor req f (some status) db = ok (db, replayed status f.version)
replay_or_move fails now actor req f none db = do
  after ← move_fulfillment fails now actor req.key req.expected_version req.body f db
  statement fails 7
  ok (after, moved req.body.status (suc f.version))

-- `transitionFulfillment`, by a merchant.
unfoldable pub transition_fulfillment :
    Faults → ℕ → Text → Text → Text → Request → Shipping → Outcome Failure (Shipping × Reply)
unfolding open_fulfillment find_event move_fulfillment
transition_fulfillment fails now order provider actor req db = do
  f ← open_fulfillment fails order provider db
  statement fails 1
  replay_or_move fails now actor req f (find_event f.id req.key db.events) db
