-- ===== src/Fulfillment/Traces.antt =====
-- The trace of a fulfilment through a change of its row,
-- internal/controllers/merchant_fulfillment_controller.go.
use across_backend_api.Prelude.{
  ℕ, suc, ◌≡◌, sym, ap, subst, ◌⊎◌, inl, inr, Bool, true, false, ◌&&◌, Option, none, some, List, [],
  ◌∷◌, arith, ◌==◌, if◌then◌else◌, ==_iff, Bool-cases, length, All,
}
use across_backend_api.Prelude.Text.{Text, text_eq, text_eq_refl, text_eq_sound}
use across_backend_api.Fulfillment.Routes.{valid_fulfillment_transition}
use across_backend_api.Fulfillment.Tables.{
  Fulfillment, FulfillmentEvent, PlacedOrder, update_fulfillment,
}
use across_backend_api.Fulfillment.Transition.{find_fulfillment}
use across_backend_api.Fulfillment.Chains.{events_of, Chain, IsTraced, Distinct}

abbrev some_or : Fulfillment → Option Fulfillment → Fulfillment
some_or g none = g
some_or g (some f) = f

-- The row is the only one with its identifier.
abbrev pub Only : Fulfillment → List Fulfillment → Type 0
Only f rows = All (λ g. text_eq g.id f.id ≡ true → g ≡ f) rows

pub Only-others :
    (f : Fulfillment) (rows : List Fulfillment)
    → All (λ g. text_eq g.id f.id ≡ false) rows
    → Only f rows
Only-others f [] h = tt
Only-others f (g ∷ more) (a, h) = (λ e. absurd (ground (arith, a, e)), Only-others f more h)

if-some :
    (b : Bool) (g : Fulfillment) (rest : Option Fulfillment) (f : Fulfillment)
    → (if b then some g else rest) ≡ some f
    → (g ≡ f) ⊎ (rest ≡ some f)
if-some true g rest f e = inl (ap (some_or g) e)
if-some false g rest f e = inr e

pub ids_apart : {B : Type 0} (s t : Text) → text_eq s t ≡ true → text_eq t s ≡ false → B
ids_apart s t e apart = absurd (
    ground
      (arith, text_eq_refl s, subst (λ z. text_eq z s ≡ false) (sym (text_eq_sound s t e)) apart))

pub text_eq_swap : (s t : Text) → text_eq s t ≡ false → text_eq t s ≡ false
text_eq_swap s t apart = elim (Bool-cases (text_eq t s)) [
  | inl e ↦ ids_apart t s e apart
  | inr e ↦ e
]

==_refl_at : (g f : Fulfillment) → g ≡ f → (g.version == f.version) ≡ true
==_refl_at g f same = (==_iff g.version f.version).1 (ap (λ z. z.version) same)

pub find_fulfillment-All :
    (P : Fulfillment → Type 0) (order provider : Text) (orders : List PlacedOrder)
    (rows : List Fulfillment) (f : Fulfillment)
    → All P rows
    → find_fulfillment order provider orders rows ≡ some f
    → P f
unfolding find_fulfillment
find_fulfillment-All P order provider orders [] f h e = absurd (ground arith)
find_fulfillment-All P order provider orders (g ∷ more) f h e =
    elim (if-some _ g (find_fulfillment order provider orders more) f e) [
      | inl same ↦ subst P same h.0
      | inr rest ↦ find_fulfillment-All P order provider orders more f h.1 rest
    ]

pub Only-found :
    (order provider : Text) (orders : List PlacedOrder) (rows : List Fulfillment) (f : Fulfillment)
    → Distinct rows
    → find_fulfillment order provider orders rows ≡ some f
    → Only f rows
unfolding find_fulfillment
Only-found order provider orders [] f d e = tt
Only-found order provider orders (g ∷ more) f (others, d) e =
    elim (if-some _ g (find_fulfillment order provider orders more) f e) [
      | inl same ↦ (λ h. same, subst (λ z. Only z more) same (Only-others g more others))
      | inr rest ↦ (
        λ h.
            let apart : text_eq f.id g.id ≡ false =
              find_fulfillment-All (λ z. text_eq z.id g.id ≡ false) order provider orders more f
                others rest in
            absurd (ids_apart g.id f.id h apart),
        Only-found order provider orders more f d rest,
      )
    ]

-- What the update of a row and its event have to be, to lengthen the trace of the row.
pub record Moves (f : Fulfillment) (change : Fulfillment → Fulfillment) (event : FulfillmentEvent)
    : Type 0 where
  pub id : (g : Fulfillment) → (change g).id ≡ g.id
  pub route : (change f).route ≡ f.route
  pub owner : (change f).owner ≡ f.owner
  pub version : (change f).version ≡ suc f.version
  pub fulfillment : event.fulfillment ≡ f.id
  pub from : event.previous_status ≡ f.status
  pub to : event.status ≡ (change f).status
  pub valid : valid_fulfillment_transition f.route f.owner f.status (change f).status ≡ true

abbrev IsChanged : List FulfillmentEvent → Text → Text → Text → Text → ℕ → Type 0
IsChanged events id route owner status version =
    Chain route owner status (events_of id events) × (version ≡ suc (length (events_of id events)))

IsChanged-at :
    (events : List FulfillmentEvent) (i i' r r' o o' s : Text) (v v' : ℕ)
    → i ≡ i'
    → r ≡ r'
    → o ≡ o'
    → v ≡ v'
    → IsChanged events i r o s v
    → IsChanged events i' r' o' s v'
IsChanged-at events i i' r r' o o' s v v' a b c d h = rw (sym a, sym b, sym c, sym d) h

module _ (change : Fulfillment → Fulfillment) (event : FulfillmentEvent)
    (events : List FulfillmentEvent) (f : Fulfillment) (m : Moves f change event) where
  Chain-event :
      (s t : Text)
      → event.previous_status ≡ s
      → event.status ≡ t
      → valid_fulfillment_transition f.route f.owner s t ≡ true
      → Chain f.route f.owner s (events_of f.id events)
      → Chain f.route f.owner t (events_of f.id (event ∷ events))
  Chain-event s t from to valid c =
      rw (m.fulfillment, text_eq_refl f.id)
        (
          to,
          subst (λ z. valid_fulfillment_transition f.route f.owner z t ≡ true) (sym from) valid,
          subst (λ z. Chain f.route f.owner z (events_of f.id events)) (sym from) c,
        )

  IsTraced-change : IsTraced events f → IsTraced (event ∷ events) (change f)
  IsTraced-change (c, v) =
      let c' : Chain f.route f.owner (change f).status (events_of f.id (event ∷ events)) =
        Chain-event f.status (change f).status m.from m.to m.valid c in
      let v' : suc f.version ≡ suc (length (events_of f.id (event ∷ events))) =
        rw (m.fulfillment, text_eq_refl f.id) (ap (λ n. suc n) v) in
      IsChanged-at (event ∷ events) f.id (change f).id f.route (change f).route f.owner
        (change f).owner (change f).status (suc f.version) (change f).version (sym (m.id f))
        (sym m.route) (sym m.owner) (sym m.version) (c', v')

  IsTraced-other :
      (g : Fulfillment)
      → text_eq g.id f.id ≡ false
      → IsTraced events g
      → IsTraced (event ∷ events) g
  IsTraced-other g apart t = rw (m.fulfillment, text_eq_swap g.id f.id apart) t

  pub update-AllTraced :
      (rows : List Fulfillment)
      → Only f rows
      → All (IsTraced events) rows
      → All (IsTraced (event ∷ events)) (update_fulfillment f.id f.version change rows).0
  unfolding update_fulfillment
  update-AllTraced [] only t = tt
  update-AllTraced (g ∷ more) (one, only) (t, ts) = elim (Bool-cases (text_eq g.id f.id)) [
    | inl e ↦
        let same : g ≡ f = one e in
        rw (e, ==_refl_at g f same)
          (
            subst (λ z. IsTraced (event ∷ events) (change z)) (sym same)
                (IsTraced-change (subst (IsTraced events) same t)),
            update-AllTraced more only ts,
          )
    | inr e ↦ rw e (IsTraced-other g e t, update-AllTraced more only ts)
  ]

module _ (change : Fulfillment → Fulfillment)
    (keeps : (g : Fulfillment) → (change g).id ≡ g.id) where
  update-All-id :
      (P : Text → Type 0) (id : Text) (version : ℕ) (rows : List Fulfillment)
      → All (λ g. P g.id) rows
      → All (λ g. P g.id) (update_fulfillment id version change rows).0
  unfolding update_fulfillment
  update-All-id P id version [] o = tt
  update-All-id P id version (g ∷ more) (o, os) =
      elim (Bool-cases (text_eq g.id id && g.version == version)) [
        | inl e ↦ rw e (subst P (sym (keeps g)) o, update-All-id P id version more os)
        | inr e ↦ rw e (o, update-All-id P id version more os)
      ]

  pub update-Distinct :
      (id : Text) (version : ℕ) (rows : List Fulfillment)
      → Distinct rows
      → Distinct (update_fulfillment id version change rows).0
  unfolding update_fulfillment
  update-Distinct id version [] d = tt
  update-Distinct id version (g ∷ more) (o, d) =
      let rest = update-All-id (λ z. text_eq z g.id ≡ false) id version more o in
      elim (Bool-cases (text_eq g.id id && g.version == version)) [
        | inl e ↦ rw e (
          subst
              (λ z.
                All (λ (h : Fulfillment). text_eq h.id z ≡ false)
                  (update_fulfillment id version change more).0)
              (sym (keeps g)) rest,
          update-Distinct id version more d,
        )
        | inr e ↦ rw e (rest, update-Distinct id version more d)
      ]
