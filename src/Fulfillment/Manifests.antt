-- ===== src/Fulfillment/Manifests.antt =====
-- `CreateMerchantManifest` and `TransitionMerchantManifest` of
-- internal/controllers/merchant_fulfillment_controller.go. The identifier and the code of a manifest
-- are inputs. The statements of an order are numbered as those of a transition.
use across_backend_api.Prelude.{
  ℕ, Bool, true, false, not, ◌&&◌, ◌||◌, Option, none, some, List, [], ◌∷◌, ltb, ◌==◌,
  if◌then◌else◌, length, filter_by,
}
use across_backend_api.Prelude.Text.{Text, codes, text_eq, to_upper, trim_space, mem_text}
use across_backend_api.Prelude.Outcome.{Outcome, ok, ◌>>=◌, ◌>>◌, reject_if}
use across_backend_api.Migrations.Runner.{text_leb}
use across_backend_api.Xp.Rows.{Failure, http, Faults, statement}
use across_backend_api.Fulfillment.Routes.{Transitions}
use across_backend_api.Fulfillment.Tables.{
  Fulfillment, PlacedOrder, Manifest, ManifestEvent, Shipping, find_order, paid_settlement,
}
use across_backend_api.Fulfillment.Transition.{Member, writing_provider, is_assigned}

pub record ManifestPayload : Type 0 where
  pub order_ids : List Text
  pub origin_country : Text
  pub origin_city : Text
  pub cutoff_at : Option ℕ  -- `none` is the zero time

unfoldable pub unique_uuids : (Text → Bool) → List Text → List Text → Bool
unfolding mem_text
unique_uuids is_uuid seen [] = true
unique_uuids is_uuid seen (o ∷ more) =
    let rest = unique_uuids is_uuid (o ∷ seen) more in is_uuid o && not (mem_text o seen) && rest

-- Whether an order stands in a manifest.
unfoldable pub is_manifested : Text → List (Text × Text) → Bool
unfolding text_eq
is_manifested order [] = false
is_manifested order ((m, o) ∷ more) = text_eq o order || is_manifested order more

abbrev pub is_cross_border : Fulfillment → Bool
is_cross_border f = text_eq f.route (codes "merchant_cross_border")

-- The fulfilments that the insert of an order selects.
abbrev pub is_manifestable : Text → Text → Shipping → Fulfillment → Bool
is_manifestable order provider db f =
    is_assigned order provider db.orders f
    && is_cross_border f
    && mem_text f.status (codes "pending" ∷ codes "accepted" ∷ codes "processing" ∷ [])
    && text_eq (paid_settlement order db.ledger) (codes "settled")
    && not (is_manifested order db.manifest_orders)

-- One turn of the loop of `CreateMerchantManifest`.
unfoldable pub add_manifest_order :
    Faults → Text → Text → Text → Shipping → Outcome Failure Shipping
unfolding text_eq mem_text find_order paid_settlement is_manifested
add_manifest_order fails id provider order db = do
  reject_if
      (fails 0 || not (length (filter_by (is_manifestable order provider db) db.fulfillments) == 1))
      (http 409)
  ok (record db { manifest_orders = (id, order) ∷ db.manifest_orders })

unfoldable pub add_manifest_orders :
    (Text → Faults) → Text → Text → List Text → Shipping → Outcome Failure Shipping
unfolding add_manifest_order
add_manifest_orders fails id provider [] db = ok db
add_manifest_orders fails id provider (o ∷ more) db = do
  next ← add_manifest_order (fails o) id provider o db
  add_manifest_orders fails id provider more next

abbrev manifest_guard : ManifestPayload → Text → Bool
manifest_guard p country =
    ltb (length p.order_ids) 1
    || ltb 500 (length p.order_ids)
    || not (length country == 2)
    || elim p.cutoff_at [ none ↦ true | some t ↦ false ]

abbrev cutoff : ManifestPayload → ℕ
cutoff p = elim p.cutoff_at [ none ↦ 0 | some t ↦ t ]

unfoldable pub new_manifest : Text → Text → Text → Text → ManifestPayload → Manifest
unfolding trim_space
new_manifest id code provider country p = record {
  id = id;
  provider = provider;
  code = code;
  origin_country = country;
  origin_city = trim_space p.origin_city;
  status = codes "open";
  cutoff_at = cutoff p;
  closed_at = none;
  dispatched_at = none;
  version = 1;
}

-- `CreateMerchantManifest`; 0 inserts the manifest and 1 commits.
unfoldable pub create_merchant_manifest :
    Faults
    → (Text → Faults)
    → (Text → Bool)
    → Text
    → Text
    → Text
    → List Member
    → ManifestPayload
    → Shipping
    → Outcome Failure Shipping
unfolding writing_provider to_upper trim_space unique_uuids new_manifest add_manifest_orders
create_merchant_manifest own fails is_uuid id code user members p db = do
  provider ← writing_provider user members
  let country : Text = to_upper (trim_space p.origin_country)
  reject_if (manifest_guard p country) (http 422)
  reject_if (not (unique_uuids is_uuid [] p.order_ids)) (http 422)
  statement own 0
  after ←
      add_manifest_orders fails id provider p.order_ids
        (record db { manifests = new_manifest id code provider country p ∷ db.manifests })
  statement own 1
  ok after

abbrev pub manifest_transitions : Transitions
manifest_transitions =
    (codes "open", codes "closed" ∷ codes "cancelled" ∷ [])
    ∷ (codes "closed", codes "dispatched" ∷ codes "cancelled" ∷ [])
    ∷ (codes "dispatched", codes "completed" ∷ [])
    ∷ []

unfoldable pub find_manifest : Text → Text → List Manifest → Option Manifest
unfolding text_eq
find_manifest id provider [] = none
find_manifest id provider (m ∷ more) =
    let rest = find_manifest id provider more in
    if text_eq m.id id && text_eq m.provider provider then some m else rest

unfoldable pub find_manifest_event : Text → Text → List ManifestEvent → Option Text
unfolding text_eq
find_manifest_event manifest key [] = none
find_manifest_event manifest key (e ∷ more) =
    let rest = find_manifest_event manifest key more in
    if text_eq e.manifest manifest && text_eq e.key key then some e.status else rest

unfoldable pub in_manifest : Text → Text → List (Text × Text) → Bool
unfolding text_eq
in_manifest id order [] = false
in_manifest id order ((m, o) ∷ more) = text_eq m id && text_eq o order || in_manifest id order more

abbrev pub is_known : Option PlacedOrder → Bool
is_known none = false
is_known (some o) = true

unfoldable pub is_member : Text → Text → Shipping → Fulfillment → Bool
unfolding text_eq in_manifest find_order
is_member id provider db f =
    in_manifest id f.order db.manifest_orders
    && text_eq f.provider provider
    && is_cross_border f
    && text_eq f.owner (codes "merchant")
    && is_known (find_order f.order db.orders)

-- `ORDER BY f.order_id`
unfoldable pub insert_by_order : Fulfillment → List Fulfillment → List Fulfillment
unfolding text_leb
insert_by_order f [] = f ∷ []
insert_by_order f (g ∷ more) =
    let rest = insert_by_order f more in if text_leb f.order g.order then f ∷ g ∷ more else g ∷ rest

unfoldable pub sort_by_order : List Fulfillment → List Fulfillment
unfolding insert_by_order
sort_by_order [] = []
sort_by_order (f ∷ more) = insert_by_order f (sort_by_order more)

-- The fulfilments of a manifest.
unfoldable pub manifest_members : Text → Text → Shipping → List Fulfillment
unfolding is_member sort_by_order
manifest_members id provider db =
    sort_by_order (filter_by (is_member id provider db) db.fulfillments)

-- A fulfilment that can leave with its manifest.
unfoldable pub is_dispatchable : Shipping → Fulfillment → Bool
unfolding text_eq paid_settlement
is_dispatchable db f =
    text_eq f.status (codes "processing")
    && text_eq (paid_settlement f.order db.ledger) (codes "settled")

unfoldable pub all_dispatchable : Shipping → List Fulfillment → Bool
unfolding is_dispatchable
all_dispatchable db [] = true
all_dispatchable db (f ∷ more) = is_dispatchable db f && all_dispatchable db more
