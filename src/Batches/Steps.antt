-- ===== src/Batches/Steps.antt =====
-- The steps that a batch may take: who asks for them by which name, from which status, to which.
-- They are stated apart from the tables of internal/controllers/batch_lifecycle_controller.go.
use across_backend_api.Prelude.{
  ◌≡◌, refl, sym, ap, subst, ◌∙◌, ◌⊎◌, inl, inr, true, some, List, [], ◌∷◌, All, arith, Bool-cases,
}
use across_backend_api.Prelude.Text.{Text, codes, text_eq, text_eq_sound, mem_text}
use across_backend_api.Prelude.Members.{mem_text_cons, mem_text_single}
use across_backend_api.Batches.Rules.{
  BatchStatus, collecting_funds, closed, settled, funds_sent_to_procurement,
  procurement_acknowledged, purchasing, procurement_complete, enroute_nigeria, arrived_local,
  ready_for_pickup, Action, close_collection, approve_procurement, reconcile,
  send_procurement_funds, acknowledge_procurement_funds, start_procurement, complete_procurement,
  dispatch, confirm_arrival, confirm_ready_for_pickup, get_ready_for_pickup, action_names,
  lookup_action, may_start_from, target, roles, catalog_roles,
}

-- The catalog office is of super admins and catalog admins.
abbrev pub IsCatalog : Text → Type 0
IsCatalog role = (role ≡ codes "super_admin") ⊎ (role ≡ codes "catalog_admin")

-- A step of a batch, asked for in a role by a name.
pub data BatchStep (role : Text) : Text → BatchStatus → BatchStatus → Type 0 where
  closes : IsCatalog role → BatchStep role (codes "close_collection") collecting_funds closed
  approves_closed :
      IsCatalog role → BatchStep role (codes "approve_procurement") closed funds_sent_to_procurement
  approves_settled :
      IsCatalog role
      → BatchStep role (codes "approve_procurement") settled funds_sent_to_procurement
  reconciles : IsCatalog role → BatchStep role (codes "reconcile") closed settled
  sends :
      IsCatalog role
      → BatchStep role (codes "send_procurement_funds") settled funds_sent_to_procurement
  acknowledges :
      role ≡ codes "procurement_admin"
      → BatchStep role
          (codes "acknowledge_procurement_funds")
          funds_sent_to_procurement
          procurement_acknowledged
  starts_unacknowledged :
      role ≡ codes "procurement_admin"
      → BatchStep role (codes "start_procurement") funds_sent_to_procurement purchasing
  starts :
      role ≡ codes "procurement_admin"
      → BatchStep role (codes "start_procurement") procurement_acknowledged purchasing
  completes :
      role ≡ codes "procurement_admin"
      → BatchStep role (codes "complete_procurement") purchasing procurement_complete
  dispatches_purchased :
      role ≡ codes "procurement_admin"
      → BatchStep role (codes "dispatch") purchasing enroute_nigeria
  dispatches :
      role ≡ codes "procurement_admin"
      → BatchStep role (codes "dispatch") procurement_complete enroute_nigeria
  arrives :
      role ≡ codes "courier_admin"
      → BatchStep role (codes "confirm_arrival") enroute_nigeria arrived_local
  arrives_ready :
      role ≡ codes "courier_admin"
      → BatchStep role (codes "confirm_ready_for_pickup") enroute_nigeria ready_for_pickup
  readies :
      role ≡ codes "courier_admin"
      → BatchStep role (codes "ready_for_pickup") arrived_local ready_for_pickup

abbrev name_of : Action → Text
name_of close_collection = codes "close_collection"
name_of approve_procurement = codes "approve_procurement"
name_of reconcile = codes "reconcile"
name_of send_procurement_funds = codes "send_procurement_funds"
name_of acknowledge_procurement_funds = codes "acknowledge_procurement_funds"
name_of start_procurement = codes "start_procurement"
name_of complete_procurement = codes "complete_procurement"
name_of dispatch = codes "dispatch"
name_of confirm_arrival = codes "confirm_arrival"
name_of confirm_ready_for_pickup = codes "confirm_ready_for_pickup"
name_of get_ready_for_pickup = codes "ready_for_pickup"

lookup_action-named :
    (name : Text) (names : List (Text × Action)) {a : Action}
    → All (λ p. p.0 ≡ name_of p.1) names
    → lookup_action name names ≡ some a
    → name ≡ name_of a
unfolding lookup_action
lookup_action-named name [] {a} h e = absurd (ground arith)
lookup_action-named name ((n, x) ∷ rest) {a} h e = elim (Bool-cases (text_eq n name)) [
  | inl same ↦
      let here : x ≡ a = ground arith in sym (text_eq_sound n name same) ∙ (h.0 ∙ ap name_of here)
  | inr other ↦ lookup_action-named name rest h.1 (ground arith)
]

action_named :
    (name : Text) {a : Action} → lookup_action name action_names ≡ some a → name ≡ name_of a
action_named name {a} e =
    lookup_action-named name action_names
      (refl, (refl, (refl, (refl, (refl, (refl, (refl, (refl, (refl, (refl, (refl, tt))))))))))) e

catalog : (role : Text) → mem_text role catalog_roles ≡ true → IsCatalog role
catalog role h = elim (mem_text_cons role (codes "super_admin") (codes "catalog_admin" ∷ []) h) [
  | inl super ↦ inl super
  | inr more ↦ inr (mem_text_single role (codes "catalog_admin") more)
]

action-BatchStep :
    (role : Text) (a : Action) (current : BatchStatus)
    → mem_text role (roles a) ≡ true
    → may_start_from a current ≡ true
    → BatchStep role (name_of a) current (target a)
unfolding roles may_start_from target
action-BatchStep role close_collection collecting_funds m h = closes (catalog role m)
action-BatchStep role approve_procurement closed m h = approves_closed (catalog role m)
action-BatchStep role approve_procurement settled m h = approves_settled (catalog role m)
action-BatchStep role reconcile closed m h = reconciles (catalog role m)
action-BatchStep role send_procurement_funds settled m h = sends (catalog role m)
action-BatchStep role acknowledge_procurement_funds funds_sent_to_procurement m h =
    acknowledges (mem_text_single role (codes "procurement_admin") m)
action-BatchStep role start_procurement funds_sent_to_procurement m h =
    starts_unacknowledged (mem_text_single role (codes "procurement_admin") m)
action-BatchStep role start_procurement procurement_acknowledged m h =
    starts (mem_text_single role (codes "procurement_admin") m)
action-BatchStep role complete_procurement purchasing m h =
    completes (mem_text_single role (codes "procurement_admin") m)
action-BatchStep role dispatch purchasing m h =
    dispatches_purchased (mem_text_single role (codes "procurement_admin") m)
action-BatchStep role dispatch procurement_complete m h =
    dispatches (mem_text_single role (codes "procurement_admin") m)
action-BatchStep role confirm_arrival enroute_nigeria m h =
    arrives (mem_text_single role (codes "courier_admin") m)
action-BatchStep role confirm_ready_for_pickup enroute_nigeria m h =
    arrives_ready (mem_text_single role (codes "courier_admin") m)
action-BatchStep role get_ready_for_pickup arrived_local m h =
    readies (mem_text_single role (codes "courier_admin") m)
action-BatchStep role a current m h = absurd (ground arith)

-- An action that its name finds, that the role has and that may start, is a step.
pub found-BatchStep :
    (role name : Text) (current : BatchStatus) {a : Action}
    → lookup_action name action_names ≡ some a
    → mem_text role (roles a) ≡ true
    → may_start_from a current ≡ true
    → BatchStep role name current (target a)
found-BatchStep role name current {a} e m h =
    subst (λ n. BatchStep role n current (target a)) (sym (action_named name e))
      (action-BatchStep role a current m h)
