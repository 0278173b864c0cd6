-- ===== src/Fulfillment/Chains.antt =====
-- The events of a fulfilment as a chain of transitions,
-- internal/controllers/merchant_fulfillment_controller.go.
use across_backend_api.Prelude.{
  suc, ◌≤◌, ◌≡◌, true, false, List, [], ◌∷◌, arith, length, filter_by, All,
}
use across_backend_api.Prelude.Text.{Text, codes, text_eq}
use across_backend_api.Fulfillment.Routes.{valid_fulfillment_transition}
use across_backend_api.Fulfillment.Tables.{Fulfillment, FulfillmentEvent, Shipping}
use across_backend_api.Fulfillment.Progress.{rank, rank_le, valid_fulfillment_transition-rank}

abbrev pub events_of : Text → List FulfillmentEvent → List FulfillmentEvent
events_of id events = filter_by (λ e. text_eq e.fulfillment id) events

-- From the newest event on, each leads to the status before it, from the first status, by a
-- transition of the route.
abbrev pub Chain : Text → Text → Text → List FulfillmentEvent → Type 0
Chain route owner status [] = status ≡ codes "pending"
Chain route owner status (e ∷ more) =
    (e.status ≡ status)
    × (valid_fulfillment_transition route owner e.previous_status status ≡ true)
    × Chain route owner e.previous_status more

abbrev pub IsTraced : List FulfillmentEvent → Fulfillment → Type 0
IsTraced events f =
    Chain f.route f.owner f.status (events_of f.id events)
    × (f.version ≡ suc (length (events_of f.id events)))

-- No two rows have one identifier.
abbrev pub Distinct : List Fulfillment → Type 0
Distinct [] = Unit
Distinct (f ∷ more) = All (λ g. text_eq g.id f.id ≡ false) more × Distinct more

abbrev pub AllTraced : Shipping → Type 0
AllTraced db = All (IsTraced db.events) db.fulfillments × Distinct db.fulfillments

Chain-length :
    (route owner status : Text) (events : List FulfillmentEvent)
    → Chain route owner status events
    → length events ≤ rank status
Chain-length route owner status [] c = omega arith
Chain-length route owner status (e ∷ more) (a, b, c) = omega (
  arith,
  Chain-length route owner e.previous_status more c,
  valid_fulfillment_transition-rank route owner e.previous_status status b,
)

-- A fulfilment whose events are its trace has moved eight times at most.
pub IsTraced-moves :
    (events : List FulfillmentEvent) (f : Fulfillment)
    → IsTraced events f
    → (length (events_of f.id events) ≤ 8) × (f.version ≤ 9)
IsTraced-moves events f (c, v) =
    let short : length (events_of f.id events) ≤ 8 =
      omega (
        arith,
        Chain-length f.route f.owner f.status (events_of f.id events) c,
        rank_le f.status,
      ) in
    (short, omega (arith, v, short))
