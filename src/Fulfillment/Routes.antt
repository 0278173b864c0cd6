-- ===== src/Fulfillment/Routes.antt =====
-- The stages of an order on its way: `merchantLocalTransitions`, `merchantCrossBorderTransitions`,
-- `validFulfillmentTransition`, `legacyStageForFulfillment` and `fulfillmentNotification` of
-- internal/controllers/merchant_fulfillment_controller.go.
use across_backend_api.Prelude.{Bool, false, ◌&&◌, List, [], ◌∷◌, if◌then◌else◌}
use across_backend_api.Prelude.Text.{Text, codes, text_eq, mem_text}

-- `map[string]map[string]bool`
abbrev pub Transitions : Type 0
Transitions = List (Text × List Text)

unfoldable pub allowed : Transitions → Text → Text → Bool
unfolding text_eq mem_text
allowed [] from to = false
allowed ((s, targets) ∷ more) from to =
    let rest = allowed more from to in if text_eq s from then mem_text to targets else rest

abbrev pub merchant_local_transitions : Transitions
merchant_local_transitions =
    (codes "pending", codes "accepted" ∷ [])
    ∷ (codes "accepted", codes "packed" ∷ [])
    ∷ (codes "packed", codes "ready_for_pickup" ∷ codes "out_for_delivery" ∷ [])
    ∷ (codes "ready_for_pickup", codes "delivered" ∷ [])
    ∷ (codes "out_for_delivery", codes "delivered" ∷ [])
    ∷ []

abbrev pub merchant_cross_border_transitions : Transitions
merchant_cross_border_transitions =
    (codes "pending", codes "accepted" ∷ [])
    ∷ (codes "accepted", codes "processing" ∷ [])
    ∷ (codes "processing", codes "dispatched_from_origin" ∷ [])
    ∷ (codes "dispatched_from_origin", codes "international_transit" ∷ [])
    ∷ (codes "international_transit", codes "customs_clearance" ∷ codes "local_hub" ∷ [])
    ∷ (codes "customs_clearance", codes "local_hub" ∷ [])
    ∷ (codes "local_hub", codes "ready_for_pickup" ∷ codes "out_for_delivery" ∷ [])
    ∷ (codes "ready_for_pickup", codes "delivered" ∷ [])
    ∷ (codes "out_for_delivery", codes "delivered" ∷ [])
    ∷ []

-- The transitions of a route; a route of neither kind has none.
unfoldable pub transitions_of : Text → Transitions
unfolding text_eq
transitions_of route =
    if text_eq route (codes "merchant_local")
    then merchant_local_transitions
    else if text_eq route (codes "merchant_cross_border")
    then merchant_cross_border_transitions
    else []

unfoldable pub valid_fulfillment_transition : Text → Text → Text → Text → Bool
unfolding text_eq allowed transitions_of
valid_fulfillment_transition route owner from to =
    text_eq owner (codes "merchant") && allowed (transitions_of route) from to

-- The stage and the status that buyers see.
unfoldable pub legacy_stage_for_fulfillment : Text → Text → Text × Text
unfolding mem_text text_eq
legacy_stage_for_fulfillment route status =
    if mem_text status (codes "international_transit" ∷ codes "customs_clearance" ∷ [])
    then (codes "In Transit Internationally", codes "Shipped")
    else if mem_text status (codes "local_hub" ∷ codes "ready_for_pickup" ∷ [])
    then (codes "Arrived at Local Hub", codes "Shipped")
    else if text_eq status (codes "out_for_delivery")
    then (codes "Out for Delivery", codes "Shipped")
    else if text_eq status (codes "delivered")
    then (codes "Delivered", codes "Delivered")
    else if mem_text status (codes "accepted" ∷ codes "packed" ∷ [])
    then (if text_eq route (codes "merchant_local")
        then (codes "Order Placed", codes "Paid")
        else (codes "Arrived at International Hub", codes "Paid"))
    else if mem_text status (codes "processing" ∷ codes "dispatched_from_origin" ∷ [])
    then (codes "Arrived at International Hub", codes "Paid")
    else (codes "Order Placed", codes "Paid")
