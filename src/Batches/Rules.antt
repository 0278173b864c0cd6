-- ===== src/Batches/Rules.antt =====
-- Which action moves a batch, and who may take it: `batchActionSpecs`, `validateBatchAction` and
-- `validateBatchActionPayload` of internal/controllers/batch_lifecycle_controller.go, with
-- `normalizeAdminRole` of admin_controller.go and `CanonicalAdminRole` of internal/auth/admin_roles.go.
use across_backend_api.Prelude.{
  ℕ, Bool, true, false, not, ◌&&◌, ◌||◌, Option, none, some, List, [], ◌∷◌, ltb, leb, ◌==◌,
  if◌then◌else◌, length,
}
use across_backend_api.Prelude.Text.{Text, codes, text_eq, is_empty, to_lower, trim_space, mem_text}
use across_backend_api.Prelude.Outcome.{Outcome, ok, err, ◌>>◌, reject_if}
use across_backend_api.Prelude.Int.{ℤ, pos, ltb_ℤ}

pub data BatchStatus : Type 0 where
  collecting_funds closed settled funds_sent_to_china funds_sent_to_procurement : BatchStatus
  procurement_acknowledged purchasing procurement_complete enroute_nigeria arrived_local :
      BatchStatus
  sorted ready_for_pickup completed : BatchStatus

pub data Action : Type 0 where
  close_collection approve_procurement reconcile send_procurement_funds : Action
  acknowledge_procurement_funds start_procurement complete_procurement dispatch : Action
  confirm_arrival confirm_ready_for_pickup get_ready_for_pickup : Action

-- The names of the actions, the keys of `batchActionSpecs`.
abbrev pub action_names : List (Text × Action)
action_names =
    (codes "close_collection", close_collection)
    ∷ (codes "approve_procurement", approve_procurement)
    ∷ (codes "reconcile", reconcile)
    ∷ (codes "send_procurement_funds", send_procurement_funds)
    ∷ (codes "acknowledge_procurement_funds", acknowledge_procurement_funds)
    ∷ (codes "start_procurement", start_procurement)
    ∷ (codes "complete_procurement", complete_procurement)
    ∷ (codes "dispatch", dispatch)
    ∷ (codes "confirm_arrival", confirm_arrival)
    ∷ (codes "confirm_ready_for_pickup", confirm_ready_for_pickup)
    ∷ (codes "ready_for_pickup", get_ready_for_pickup)
    ∷ []

unfoldable pub lookup_action : Text → List (Text × Action) → Option Action
unfolding text_eq
lookup_action name [] = none
lookup_action name ((n, a) ∷ rest) =
    let found = lookup_action name rest in if text_eq n name then some a else found

unfoldable pub may_start_from : Action → BatchStatus → Bool
may_start_from close_collection collecting_funds = true
may_start_from approve_procurement closed = true
may_start_from approve_procurement settled = true
may_start_from reconcile closed = true
may_start_from send_procurement_funds settled = true
may_start_from acknowledge_procurement_funds funds_sent_to_procurement = true
may_start_from start_procurement funds_sent_to_procurement = true
may_start_from start_procurement procurement_acknowledged = true
may_start_from complete_procurement purchasing = true
may_start_from dispatch purchasing = true
may_start_from dispatch procurement_complete = true
may_start_from confirm_arrival enroute_nigeria = true
may_start_from confirm_ready_for_pickup enroute_nigeria = true
may_start_from get_ready_for_pickup arrived_local = true
may_start_from _ _ = false

unfoldable pub target : Action → BatchStatus
target close_collection = closed
target approve_procurement = funds_sent_to_procurement
target reconcile = settled
target send_procurement_funds = funds_sent_to_procurement
target acknowledge_procurement_funds = procurement_acknowledged
target start_procurement = purchasing
target complete_procurement = procurement_complete
target dispatch = enroute_nigeria
target confirm_arrival = arrived_local
target confirm_ready_for_pickup = ready_for_pickup
target get_ready_for_pickup = ready_for_pickup

abbrev pub catalog_roles : List Text
catalog_roles = codes "super_admin" ∷ codes "catalog_admin" ∷ []

abbrev pub procurement_roles : List Text
procurement_roles = codes "procurement_admin" ∷ []

abbrev pub courier_roles : List Text
courier_roles = codes "courier_admin" ∷ []

unfoldable pub roles : Action → List Text
roles close_collection = catalog_roles
roles approve_procurement = catalog_roles
roles reconcile = catalog_roles
roles send_procurement_funds = catalog_roles
roles acknowledge_procurement_funds = procurement_roles
roles start_procurement = procurement_roles
roles complete_procurement = procurement_roles
roles dispatch = procurement_roles
roles confirm_arrival = courier_roles
roles confirm_ready_for_pickup = courier_roles
roles get_ready_for_pickup = courier_roles

abbrev pub catalog_names : List Text
catalog_names =
    codes "admin"
    ∷ codes "admin_i"
    ∷ codes "admin_ii"
    ∷ codes "admin_iii"
    ∷ codes "procurement_admin"
    ∷ codes "courier_admin"
    ∷ codes "catalog_admin"
    ∷ []

abbrev pub plain_names : List Text
plain_names =
    codes "super_admin"
    ∷ codes "support_admin"
    ∷ codes "moderation_admin"
    ∷ codes "finance_admin"
    ∷ codes "ads_admin"
    ∷ []

-- `CanonicalAdminRole`; an unknown role is no role.
unfoldable pub canonical_admin_role : Text → Text
unfolding to_lower trim_space mem_text
canonical_admin_role role =
    let r : Text = to_lower (trim_space role) in
    if mem_text r catalog_names
    then codes "catalog_admin"
    else if mem_text r plain_names
    then r
    else []

unfoldable pub normalize_admin_role : Text → Text
unfolding trim_space canonical_admin_role
normalize_admin_role role =
    if is_empty (trim_space role) then codes "catalog_admin" else canonical_admin_role role

unfoldable pub validate_batch_action : Text → BatchStatus → Text → Outcome ℕ Action
unfolding lookup_action normalize_admin_role mem_text roles may_start_from
validate_batch_action role current action = elim (lookup_action action action_names) [
  | none ↦ err 400
  | some a ↦ (do
    reject_if (not (mem_text (normalize_admin_role role) (roles a))) 403
    reject_if (not (may_start_from a current)) 409
    ok a)
]

-- `batchTransitionRequest`, after its texts are trimmed. The amount is in kobo.
pub record TransitionRequest : Type 0 where
  pub action : Text
  pub expected_version : ℤ
  pub amount : ℤ
  pub currency : Text
  pub reference : Text
  pub location : Text
  pub pickup_location : Text
  pub pickup_phone : Text
  pub notes : Text
  pub manifest_checked : Bool

unfoldable pub default_currency : Text → Text
default_currency value = if is_empty value then codes "NGN" else value

abbrev all_capitals : Text → Bool
all_capitals [] = true
all_capitals (c ∷ s) = leb b'A' c && leb c b'Z' && all_capitals s

-- The characters of a text of three bytes are its bytes, or else no capitals.
unfoldable pub is_iso4217_code : Text → Bool
is_iso4217_code value = length value == 3 && all_capitals value

-- `validateBatchActionPayload`, with the two counts that it may ask for.
unfoldable pub validate_payload : Action → ℕ → ℕ → TransitionRequest → Outcome ℕ (Unit {0})
unfolding default_currency is_iso4217_code
validate_payload approve_procurement paid_orders unresolved req = reject_if (paid_orders == 0) 409
validate_payload send_procurement_funds paid_orders unresolved req = do
  reject_if (not (ltb_ℤ (pos 0) req.amount) || is_empty req.reference) 400
  reject_if (not (is_iso4217_code (default_currency req.currency))) 400
validate_payload complete_procurement paid_orders unresolved req = reject_if (ltb 0 unresolved) 409
validate_payload dispatch paid_orders unresolved req = reject_if (ltb 0 unresolved) 409
validate_payload confirm_arrival paid_orders unresolved req = reject_if (is_empty req.location) 400
validate_payload get_ready_for_pickup paid_orders unresolved req =
    reject_if (is_empty req.pickup_location || is_empty req.pickup_phone) 400
validate_payload confirm_ready_for_pickup paid_orders unresolved req = do
  reject_if (is_empty req.pickup_location || is_empty req.pickup_phone) 400
  reject_if (not req.manifest_checked) 400
validate_payload _ paid_orders unresolved req = ok tt
