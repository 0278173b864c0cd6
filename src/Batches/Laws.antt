-- ===== src/Batches/Laws.antt =====
-- What a transition of a batch and the daily closing guarantee.
use across_backend_api.Prelude.{
  ℕ, suc, ◌≡◌, refl, sym, ap, subst, ◌==◌, ◌∙◌, inl, inr, Bool, true, false, not, ◌||◌, some, List,
  [], ◌∷◌, arith, Bool-cases, Option-cases,
}
use across_backend_api.Prelude.Text.{Text, text_eq, mem_text}
use across_backend_api.Prelude.Outcome.{Outcome, ok, err, ◌>>=◌, ◌>>◌, reject_if, Outcome-cases}
use across_backend_api.Prelude.Int.{ℤ, pos}
use across_backend_api.Batches.Steps.{BatchStep, found-BatchStep}
use across_backend_api.Batches.Rules.{
  BatchStatus, Action, action_names, lookup_action, may_start_from, target, roles,
  normalize_admin_role, validate_batch_action, TransitionRequest, validate_payload,
}
use across_backend_api.Batches.Tables.{
  Batch, Store, find_batch, paid_orders, unresolved_items, nullable_admin_id,
}
use across_backend_api.Batches.Transition.{
  after_transition, transition_batch, close_batches, is_due, version_differs, move_batch,
  replace_batch, new_location,
}

-- The chain of checks on a row that was found.
abbrev row_chain :
    {X : Type 0}
    → Bool
    → Outcome ℕ Action
    → Bool
    → (Action → Outcome ℕ (Unit {0}))
    → Bool
    → (Action → X)
    → Outcome ℕ X
row_chain stale checked broken payload refused result = do
  reject_if stale 409
  a ← checked
  reject_if broken 500
  payload a
  reject_if refused 500
  ok (result a)

row_chain-ok :
    {X : Type 0} (stale : Bool) (checked : Outcome ℕ Action) (broken : Bool)
    (payload : Action → Outcome ℕ (Unit {0})) (refused : Bool) (result : Action → X) {x : X}
    → row_chain stale checked broken payload refused result ≡ ok x
    → (stale ≡ false) × ((a : Action) × (checked ≡ ok a) × (payload a ≡ ok tt) × (result a ≡ x))
row_chain-ok true checked broken payload refused result ran = absurd (ground arith)
row_chain-ok false (err e) broken payload refused result ran = absurd (ground arith)
row_chain-ok false (ok a) true payload refused result ran = absurd (ground arith)
row_chain-ok false (ok a) false payload true result ran = elim (Outcome-cases (payload a)) [
  | inl (_, fine) ↦ absurd (ground arith)
  | inr (_, bad) ↦ absurd (ground arith)
]
row_chain-ok false (ok a) false payload false result ran = elim (Outcome-cases (payload a)) [
  | inl (_, fine) ↦ (refl, (a, refl, fine, ground arith))
  | inr (_, bad) ↦ absurd (ground arith)
]

-- The transition of a row that was found.
abbrev row_checks :
    (ℕ → Bool) → ℕ → Text → Text → Text → TransitionRequest → Store → Batch → Outcome ℕ (Store × ℕ)
row_checks fails now admin role id req s b =
    row_chain (version_differs req.expected_version b.version)
      (validate_batch_action role b.status req.action) (fails 2)
      (λ a. validate_payload a (paid_orders id s.orders) (unresolved_items id s.orders) req)
      (fails 3 || fails 4 || fails 5 || fails 6 || fails 7)
      (λ a. (after_transition now (nullable_admin_id admin) id a req b s, suc b.version))

found_chain :
    (fails : ℕ → Bool) (now : ℕ) (admin role id : Text) (req : TransitionRequest) (s : Store)
    {x : Store × ℕ}
    → transition_batch fails now admin role id req s ≡ ok x
    → (b : Batch) × (find_batch id s.batches ≡ some b)
      × (row_checks fails now admin role id req s b ≡ ok x)
unfolding transition_batch
found_chain fails now admin role id req s {x} ran = elim (Bool-cases (fails 0 || fails 1)) [
  | inl broken ↦
      let e : transition_batch fails now admin role id req s ≡ err 500 = rw broken refl in
      let clash : Path (Outcome ℕ (Store × ℕ)) (err 500) (ok x) = sym e ∙ ran in
      absurd (ground arith)
  | inr fine ↦ elim (Option-cases (find_batch id s.batches)) [
    | inl missing ↦
        let e : transition_batch fails now admin role id req s ≡ err 404 =
          rw (fine, missing) refl in
        let clash : Path (Outcome ℕ (Store × ℕ)) (err 404) (ok x) = sym e ∙ ran in
        absurd (ground arith)
    | inr (b, found) ↦
        let e : transition_batch fails now admin role id req s
            ≡ row_checks fails now admin role id req s b =
          rw (fine, found) refl in
        (b, found, sym e ∙ ran)
  ]
]

abbrev action_chain : Bool → Bool → Action → Outcome ℕ Action
action_chain forbidden early a = do reject_if forbidden 403; reject_if early 409; ok a

action_chain-ok :
    (allowed may : Bool) (a' : Action) {a : Action}
    → action_chain (not allowed) (not may) a' ≡ ok a
    → (allowed ≡ true) × (may ≡ true) × (a' ≡ a)
action_chain-ok true true a' {a} ran = (refl, refl, ground arith)
action_chain-ok true false a' {a} ran = absurd (ground arith)
action_chain-ok false may a' {a} ran = absurd (ground arith)

validate_batch_action-BatchStep :
    (role : Text) (current : BatchStatus) (action : Text) {a : Action}
    → validate_batch_action role current action ≡ ok a
    → BatchStep (normalize_admin_role role) action current (target a)
unfolding validate_batch_action
validate_batch_action-BatchStep role current action {a} ran =
    elim (Option-cases (lookup_action action action_names)) [
      | inl unknown ↦
          let e : validate_batch_action role current action ≡ err 400 = rw unknown refl in
          let clash : Path (Outcome ℕ Action) (err 400) (ok a) = sym e ∙ ran in
          absurd (ground arith)
      | inr (a', known) ↦
          let e : validate_batch_action role current action
              ≡ action_chain (not (mem_text (normalize_admin_role role) (roles a')))
                  (not (may_start_from a' current)) a' =
            rw known refl in
          let (allowed, may, same) =
            action_chain-ok (mem_text (normalize_admin_role role) (roles a'))
              (may_start_from a' current) a' (sym e ∙ ran) in
          subst (λ x. BatchStep (normalize_admin_role role) action current (target x)) same
            (found-BatchStep (normalize_admin_role role) action current known allowed may)
    ]

-- The version asked for, if any, is the batch's.
wanted_version :
    (wanted : ℤ) (version n : ℕ)
    → version_differs wanted version ≡ false
    → wanted ≡ pos (suc n)
    → version ≡ suc n
wanted_version wanted version n h e =
    let h1 : not (suc n == version) ≡ false = subst (λ z. version_differs z version ≡ false) e h in
    ground arith

find_batch-replace_batch :
    (id : Text) (f : Batch → Batch) (bs : List Batch) {b : Batch}
    → ((x : Batch) → text_eq (f x).id id ≡ text_eq x.id id)
    → find_batch id bs ≡ some b
    → find_batch id (replace_batch id f bs) ≡ some (f b)
unfolding find_batch replace_batch
find_batch-replace_batch id f [] same e = absurd (ground arith)
find_batch-replace_batch id f (x ∷ bs) {b} same e = elim (Bool-cases (text_eq x.id id)) [
  | inl hit ↦
      let here : x ≡ b = ground arith in
      let kept : text_eq (f x).id id ≡ true = same x ∙ hit in
      rw (hit, kept) (ap (λ y. some (f y)) here)
  | inr miss ↦ rw (miss, miss) (find_batch-replace_batch id f bs {b = b} same (ground arith))
]

-- A transition that succeeds was asked for at the batch's version, where one above 0 is asked for; it
-- takes the batch from its status to the new one by a step that the action asked for and the role,
-- as normalized, allow; it gives the batch the next version, and enters an event of both statuses,
-- under the action's name, on top of the others.
pub transition_batch-effect :
    (fails : ℕ → Bool) (now : ℕ) (admin role id : Text) (req : TransitionRequest) (s s' : Store)
    (version : ℕ)
    → transition_batch fails now admin role id req s ≡ ok (s', version)
    → (b : Batch) × (b' : Batch) × (find_batch id s.batches ≡ some b)
      × (find_batch id s'.batches ≡ some b')
      × ((n : ℕ) → req.expected_version ≡ pos (suc n) → b.version ≡ suc n)
      × BatchStep (normalize_admin_role role) req.action b.status b'.status
      × (b'.version ≡ suc b.version)
      × (version ≡ suc b.version)
      × (s'.events
          ≡ record {
            batch = id;
            actor = nullable_admin_id admin;
            kind = req.action;
            previous = b.status;
            status = b'.status;
            location = new_location req;
            notes = req.notes;
          }
            ∷ s.events)
unfolding after_transition move_batch
transition_batch-effect fails now admin role id req s s' version ran =
    let (b, found, rest) = found_chain fails now admin role id req s ran in
    let (current, (a, valid, _, made)) =
      row_chain-ok (version_differs req.expected_version b.version)
        (validate_batch_action role b.status req.action) (fails 2)
        (λ x. validate_payload x (paid_orders id s.orders) (unresolved_items id s.orders) req)
        (fails 3 || fails 4 || fails 5 || fails 6 || fails 7)
        (λ x. (after_transition now (nullable_admin_id admin) id x req b s, suc b.version)) rest in
    let f : Batch → Batch = move_batch now (nullable_admin_id admin) a (new_location req) req in
    let e : after_transition now (nullable_admin_id admin) id a req b s ≡ s' = ap (λ p. p.0) made in
    (
      b,
      f b,
      found,
      ap (λ x. find_batch id x.batches) (sym e)
          ∙ find_batch-replace_batch id f s.batches {b = b} (λ x. refl) found,
      λ n. wanted_version req.expected_version b.version n current,
      validate_batch_action-BatchStep role b.status req.action valid,
      refl,
      sym (ap (λ p. p.1) made),
      ap (λ x. x.events) (sym e),
    )

-- The daily closing leaves nothing to close: run again at once, as by another replica, it changes
-- no batch and enters no event.
pub close_batches_again :
    (expired : Batch → Bool) (now now' : ℕ) (bs : List Batch)
    → close_batches expired now' (close_batches expired now bs).0
      ≡ ((close_batches expired now bs).0, [])
unfolding close_batches
close_batches_again expired now now' [] = refl
close_batches_again expired now now' (b ∷ bs) =
    let ih = close_batches_again expired now now' bs in
    elim (Bool-cases (is_due expired b)) [
      | inl due ↦ rw (due, ih) refl
      | inr not_due ↦ rw (not_due, not_due, ih) refl
    ]
