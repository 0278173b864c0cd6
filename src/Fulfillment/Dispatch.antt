-- ===== src/Fulfillment/Dispatch.antt =====
-- `TransitionMerchantManifest` of internal/controllers/merchant_fulfillment_controller.go. Its
-- statements: 0 reads the manifest, 1 looks for the event, 2 reads the members, 3 updates the
-- manifest, 4 enters the event, 5 commits; those of an order are numbered as in a transition.
use across_backend_api.Prelude.{
  ℕ, suc, Bool, true, false, not, ◌&&◌, ◌||◌, Option, none, some, List, [], ◌∷◌, ◌++◌, ltb, ◌==◌,
  if◌then◌else◌,
}
use across_backend_api.Prelude.Text.{Text, codes, text_eq, is_empty, to_lower, trim_space}
use across_backend_api.Prelude.Outcome.{Outcome, ok, err, ◌>>=◌, ◌>>◌, reject_if}
use across_backend_api.Xp.Rows.{Failure, http, database, Faults, statement}
use across_backend_api.Fulfillment.Routes.{allowed}
use across_backend_api.Fulfillment.Tables.{
  Fulfillment, FulfillmentEvent, PlacedOrder, Manifest, ManifestEvent, Shipping, find_event,
  update_fulfillment, update_order, notify,
}
use across_backend_api.Fulfillment.Transition.{
  Member, writing_provider, is_taken, earlier, Reply, replayed, moved, buyer_of,
}
use across_backend_api.Fulfillment.Tables.{find_order}
use across_backend_api.Fulfillment.Manifests.{
  manifest_transitions, find_manifest, find_manifest_event, manifest_members, all_dispatchable,
}

unfoldable pub dispatched_row : ℕ → Fulfillment → Fulfillment
dispatched_row now f = record f {
  status = codes "dispatched_from_origin";
  dispatched_at = some (elim f.dispatched_at [ none ↦ now | some t ↦ t ]);
  version = suc f.version;
}

abbrev hub_order : PlacedOrder → PlacedOrder
hub_order o = record o { stage = codes "Arrived at International Hub"; order_status = codes "Paid" }

abbrev pub dispatch_key : Text → Text → Text
dispatch_key manifest order = codes "manifest-dispatch:" ++ manifest ++ codes ":" ++ order

unfoldable pub dispatch_event : Text → Text → Text → Fulfillment → FulfillmentEvent
unfolding trim_space
dispatch_event actor manifest notes f = record {
  fulfillment = f.id;
  actor = actor;
  previous_status = f.status;
  status = codes "dispatched_from_origin";
  notes = trim_space notes;
  location = [];
  metadata = none;
  key = dispatch_key manifest f.order;
}

unfoldable pub dispatched :
    Text → Text → Text → Fulfillment → List Fulfillment → Shipping → Shipping
unfolding dispatch_event update_order notify find_order trim_space
dispatched actor manifest notes f rows db = record db {
  fulfillments = rows;
  orders = update_order f.order hub_order db.orders;
  events = dispatch_event actor manifest notes f ∷ db.events;
  tracking =
      record {
        order = f.order;
        stage = codes "Arrived at International Hub";
        notes = trim_space notes;
      }
      ∷ db.tracking;
  notifications =
      notify (buyer_of (find_order f.order db.orders)) f.order (dispatch_key manifest f.order)
        db.notifications;
}

-- One turn of the loop over the members.
unfoldable pub dispatch_member :
    Faults → ℕ → Text → Text → Text → Fulfillment → Shipping → Outcome Failure Shipping
unfolding update_fulfillment dispatched_row find_event dispatched
dispatch_member fails now actor manifest notes f db = do
  let (rows, n) = update_fulfillment f.id f.version (dispatched_row now) db.fulfillments
  reject_if (fails 2 || not (n == 1)) (http 409)
  statement fails 3
  reject_if (fails 4 || is_taken (find_event f.id (dispatch_key manifest f.order) db.events))
      database
  statement fails 5
  statement fails 6
  ok (dispatched actor manifest notes f rows db)

unfoldable pub dispatch_members :
    (Text → Faults)
    → ℕ
    → Text
    → Text
    → Text
    → List Fulfillment
    → Shipping
    → Outcome Failure Shipping
unfolding dispatch_member
dispatch_members fails now actor manifest notes [] db = ok db
dispatch_members fails now actor manifest notes (f ∷ more) db = do
  next ← dispatch_member (fails f.order) now actor manifest notes f db
  dispatch_members fails now actor manifest notes more next

abbrev pub has_none : List Fulfillment → Bool
has_none [] = true
has_none (f ∷ more) = false

-- The branch of the status `dispatched`.
unfoldable pub dispatch_manifest :
    Faults → (Text → Faults) → ℕ → Text → Text → Text → Text → Shipping → Outcome Failure Shipping
unfolding manifest_members all_dispatchable dispatch_members
dispatch_manifest own fails now actor provider manifest notes db = do
  let members : List Fulfillment = manifest_members manifest provider db
  statement own 2
  reject_if (not (all_dispatchable db members)) (http 409)
  reject_if (has_none members) (http 409)
  dispatch_members fails now actor manifest notes members db

pub record ManifestRequest : Type 0 where
  pub status : Text
  pub expected_version : ℕ
  pub key : Text
  pub notes : Text

abbrev set_when : Bool → Option ℕ → ℕ → Option ℕ
set_when true t now = earlier t now
set_when false t now = t

unfoldable pub manifest_row : ℕ → Text → Manifest → Manifest
unfolding text_eq
manifest_row now status m = record m {
  status = status;
  closed_at = set_when (text_eq status (codes "closed")) m.closed_at now;
  dispatched_at = set_when (text_eq status (codes "dispatched")) m.dispatched_at now;
  version = suc m.version;
}

-- The update of a manifest at its version, with the rows it met.
unfoldable pub update_manifest :
    Text → ℕ → (Manifest → Manifest) → List Manifest → List Manifest × ℕ
unfolding text_eq
update_manifest id version change [] = ([], 0)
update_manifest id version change (m ∷ more) =
    let (rest, n) = update_manifest id version change more in
    if text_eq m.id id && m.version == version then (change m ∷ rest, suc n) else (m ∷ rest, n)

abbrev enter_event : ManifestEvent → List Manifest → Shipping → Shipping
enter_event e rows db = record db { manifests = rows; manifest_events = e ∷ db.manifest_events }

unfoldable pub manifest_event : Text → Text → ManifestRequest → Manifest → ManifestEvent
unfolding trim_space
manifest_event actor status req m = record {
  manifest = m.id;
  actor = actor;
  previous_status = m.status;
  status = status;
  notes = trim_space req.notes;
  key = trim_space req.key;
}

-- The update of the manifest and its event.
unfoldable pub finish_manifest :
    Faults
    → ℕ
    → Text
    → Text
    → ManifestRequest
    → Manifest
    → Shipping
    → Outcome Failure (Shipping × Reply)
unfolding update_manifest manifest_row find_manifest_event manifest_event
finish_manifest own now actor status req m db = do
  let (rows, n) = update_manifest m.id m.version (manifest_row now status) db.manifests
  reject_if (own 3 || not (n == 1)) (http 409)
  reject_if (own 4 || is_taken (find_manifest_event m.id (trim_space req.key) db.manifest_events))
      database
  statement own 5
  ok (enter_event (manifest_event actor status req m) rows db, moved status (suc m.version))

abbrev pub dispatch_if : Bool → Outcome Failure Shipping → Shipping → Outcome Failure Shipping
dispatch_if true r db = r
dispatch_if false r db = ok db

abbrev pub replay_or_change :
    Faults
    → (Text → Faults)
    → ℕ
    → Text
    → Text
    → Text
    → ManifestRequest
    → Manifest
    → Option Text
    → Shipping
    → Outcome Failure (Shipping × Reply)
replay_or_change own fails now actor provider status req m (some s) db =
    ok (db, replayed s m.version)
replay_or_change own fails now actor provider status req m none db = do
  reject_if
      (not (m.version == req.expected_version)
        || not (allowed manifest_transitions m.status status))
      (http 409)
  after ←
      dispatch_if (text_eq status (codes "dispatched"))
        (dispatch_manifest own fails now actor provider m.id req.notes db) db
  finish_manifest own now actor status req m after

abbrev present : Option Manifest → Outcome Failure Manifest
present none = err (http 404)
present (some m) = ok m

-- `TransitionMerchantManifest`
unfoldable pub transition_merchant_manifest :
    Faults
    → (Text → Faults)
    → ℕ
    → Text
    → List Member
    → Text
    → ManifestRequest
    → Shipping
    → Outcome Failure (Shipping × Reply)
unfolding writing_provider to_lower trim_space find_manifest find_manifest_event dispatch_manifest
    finish_manifest allowed text_eq
transition_merchant_manifest own fails now user members id req db = do
  provider ← writing_provider user members
  let status : Text = to_lower (trim_space req.status)
  reject_if (is_empty status || ltb req.expected_version 1 || is_empty (trim_space req.key))
      (http 422)
  statement own 0
  m ← present (find_manifest id provider db.manifests)
  statement own 1
  replay_or_change own fails now user provider status req m
      (find_manifest_event m.id (trim_space req.key) db.manifest_events) db
