-- ===== src/Fulfillment/Progress.antt =====
-- The stages of an order as steps forward.
use across_backend_api.Prelude.{
  ℕ, ◌≤◌, ◌<◌, ◌≡◌, subst, inl, inr, Bool, true, ◌&&◌, ◌||◌, List, [], ◌∷◌, arith, if◌then◌else◌,
  Bool-cases, All,
}
use across_backend_api.Prelude.Text.{Text, codes, text_eq, text_eq_sound, mem_text}
use across_backend_api.Fulfillment.Routes.{
  Transitions, allowed, merchant_local_transitions, merchant_cross_border_transitions,
  transitions_of, valid_fulfillment_transition,
}

-- How far a stage is from the start.
unfoldable rank_in : List (Text × ℕ) → Text → ℕ
unfolding text_eq
rank_in [] s = 0
rank_in ((t, n) ∷ more) s = if text_eq t s then n else rank_in more s

abbrev ranks : List (Text × ℕ)
ranks =
    (codes "accepted", 1)
    ∷ (codes "packed", 2)
    ∷ (codes "processing", 2)
    ∷ (codes "dispatched_from_origin", 3)
    ∷ (codes "international_transit", 4)
    ∷ (codes "customs_clearance", 5)
    ∷ (codes "local_hub", 6)
    ∷ (codes "ready_for_pickup", 7)
    ∷ (codes "out_for_delivery", 7)
    ∷ (codes "delivered", 8)
    ∷ []

unfoldable pub rank : Text → ℕ
unfolding rank_in
rank s = rank_in ranks s

-- All pairs of a table.
abbrev AllTargets : (Text → Text → Type 0) → Transitions → Type 0
AllTargets P ts = All (λ t. All (P t.0) t.1) ts

mem_text-All :
    (P : Text → Type 0) (s : Text) (ts : List Text) → All P ts → mem_text s ts ≡ true → P s
unfolding mem_text
mem_text-All P s [] h m = absurd (ground arith)
mem_text-All P s (t ∷ ts) h m = elim (Bool-cases (text_eq t s)) [
  | inl e ↦ subst P (text_eq_sound t s e) h.0
  | inr e ↦ mem_text-All P s ts h.1 (subst (λ b. (b || mem_text s ts) ≡ true) e m)
]

allowed-All :
    (P : Text → Text → Type 0) (ts : Transitions) (from to : Text)
    → AllTargets P ts
    → allowed ts from to ≡ true
    → P from to
unfolding allowed
allowed-All P [] from to h a = absurd (ground arith)
allowed-All P ((s, targets) ∷ more) from to h a = elim (Bool-cases (text_eq s from)) [
  | inl e ↦
      subst (λ z. P z to) (text_eq_sound s from e)
        (mem_text-All (P s) to targets h.0
          (subst (λ b. (if b then mem_text to targets else allowed more from to) ≡ true) e a))
  | inr e ↦
      allowed-All P more from to h.1
        (subst (λ b. (if b then mem_text to targets else allowed more from to) ≡ true) e a)
]

abbrev Forward : Text → Text → Type 0
Forward from to = rank from < rank to

local-Forward : AllTargets Forward merchant_local_transitions
unfolding rank rank_in text_eq
local-Forward = (
  (omega arith, tt),
  (
    (omega arith, tt),
    ((omega arith, (omega arith, tt)), ((omega arith, tt), ((omega arith, tt), tt))),
  ),
)

border-Forward : AllTargets Forward merchant_cross_border_transitions
unfolding rank rank_in text_eq
border-Forward = (
  (omega arith, tt),
  (
    (omega arith, tt),
    (
      (omega arith, tt),
      (
        (omega arith, tt),
        (
          (omega arith, (omega arith, tt)),
          (
            (omega arith, tt),
            ((omega arith, (omega arith, tt)), ((omega arith, tt), ((omega arith, tt), tt))),
          ),
        ),
      ),
    ),
  ),
)

rank_in-le : (n : ℕ) (rs : List (Text × ℕ)) (s : Text) → All (λ r. r.1 ≤ n) rs → rank_in rs s ≤ n
unfolding rank_in
rank_in-le n [] s h = omega arith
rank_in-le n ((t, k) ∷ more) s h = ground (arith, h.0, rank_in-le n more s h.1)

pub rank_le : (s : Text) → rank s ≤ 8
unfolding rank
rank_le s = rank_in-le 8 ranks s (
  omega arith,
  (
    omega arith,
    (
      omega arith,
      (
        omega arith,
        (
          omega arith,
          (omega arith, (omega arith, (omega arith, (omega arith, (omega arith, tt))))),
        ),
      ),
    ),
  ),
)

transitions-Forward : (route : Text) → AllTargets Forward (transitions_of route)
unfolding transitions_of
transitions-Forward route = elim (Bool-cases (text_eq route (codes "merchant_local"))) [
  | inl l ↦ rw l local-Forward
  | inr l ↦ elim (Bool-cases (text_eq route (codes "merchant_cross_border"))) [
    | inl c ↦ rw (l, c) border-Forward
    | inr c ↦ rw (l, c) tt
  ]
]

and_right : (a b : Bool) → (a && b) ≡ true → b ≡ true
and_right a b h = ground arith

-- A transition that is valid leads forward.
pub valid_fulfillment_transition-rank :
    (route owner from to : Text)
    → valid_fulfillment_transition route owner from to ≡ true
    → rank from < rank to
unfolding valid_fulfillment_transition
valid_fulfillment_transition-rank route owner from to h =
    allowed-All Forward (transitions_of route) from to (transitions-Forward route)
      (and_right (text_eq owner (codes "merchant")) (allowed (transitions_of route) from to) h)
