-- ===== src/Payments/Attempts/Laws.antt =====
-- What selecting a method and settling a payment guarantee.
use across_backend_api.Prelude.{
  ℕ, ◌≡◌, refl, sym, ap, ◌∙◌, ◌≢◌, inl, inr, Bool, true, false, Option, none, some, List, [], ◌∷◌,
  arith, Bool-cases, All,
}
use across_backend_api.Prelude.Text.{
  Text, text_eq, text_eq_refl, text_eq_sound, is_empty, to_lower, trim_space, mem_text,
}
use across_backend_api.Prelude.Outcome.{ok}
use across_backend_api.Payments.Attempts.{
  Attempt, clean_methods, or_card, select_payment_methods, accepts, assigned, first_time,
  is_settled_by, settle_attempt, settle_attempts, settle_payment_ledger,
}

or_card_some : (ms : List Text) → or_card ms ≢ []
or_card_some [] = ground arith
or_card_some (m ∷ ms) = ground arith

mem_text-single : (m n : Text) → mem_text m (n ∷ []) ≡ true → m ≡ n
unfolding mem_text
mem_text-single m n h = ground (arith, text_eq_sound n m, text_eq_sound m n)

-- A request gets no method that the policy does not allow: it is refused, or what it gets is among
-- the cleaned methods, and there is one at least.
pub select_payment_methods-allowed :
    (allowed : List Text) (requested : Text) {methods : List Text}
    → select_payment_methods allowed requested ≡ some methods
    → ((m : Text) → mem_text m methods ≡ true → mem_text m (or_card (clean_methods allowed)) ≡ true)
      × (methods ≢ [])
unfolding select_payment_methods mem_text
select_payment_methods-allowed allowed requested {methods} e =
    let clean : List Text = or_card (clean_methods allowed) in
    let wanted : Text = to_lower (trim_space requested) in
    elim (Bool-cases (is_empty wanted)) [
      | inl any ↦
          let all : methods ≡ clean = ground arith in
          (
            λ m h. ap (mem_text m) (sym all) ∙ h,
            λ nothing. or_card_some (clean_methods allowed) (sym all ∙ nothing),
          )
      | inr one ↦ elim (Bool-cases (mem_text wanted clean)) [
        | inr refused ↦ absurd (ground arith)
        | inl offered ↦
            let only : methods ≡ wanted ∷ [] = ground arith in
            (
              λ m h.
                  ap (λ x. mem_text x clean)
                    (mem_text-single m wanted (ap (mem_text m) (sym only) ∙ h))
                  ∙ offered,
              λ nothing. ground arith,
            )
      ]
    ]

assigned_again : (o : Option Text) (t : Text) → assigned (assigned o t) t ≡ assigned o t
assigned_again none t = ground arith
assigned_again (some s) t = refl

accepts-assigned :
    (o : Option Text) (t : Text) → accepts o t ≡ true → accepts (assigned o t) t ≡ true
accepts-assigned none t h = ground (arith, text_eq_refl t)
accepts-assigned (some s) t h = h

first_time_again :
    (o : Option ℕ) (now now' : ℕ) → first_time (first_time o now) now' ≡ first_time o now
first_time_again none now now' = refl
first_time_again (some t) now now' = refl

settle_attempt_again :
    (now now' : ℕ) (provider reference transaction status : Text) (a : Attempt)
    → is_settled_by provider reference transaction a ≡ true
    → (is_settled_by provider reference transaction (settle_attempt now transaction status a)
        ≡ true)
      × (settle_attempt now' transaction status (settle_attempt now transaction status a)
          ≡ settle_attempt now transaction status a)
unfolding is_settled_by
settle_attempt_again now now' provider reference transaction status a h = (
  ground (arith, accepts-assigned a.transaction transaction),
  rw (assigned_again a.transaction transaction, first_time_again a.paid_at now now') refl,
)

settle_attempts_again :
    (now now' : ℕ) (provider reference transaction status : Text) (attempts : List Attempt)
    → let (rows, n) = settle_attempts now provider reference transaction status attempts in
      settle_attempts now' provider reference transaction status rows ≡ (rows, n)
unfolding settle_attempts
settle_attempts_again now now' provider reference transaction status [] = refl
settle_attempts_again now now' provider reference transaction status (a ∷ more) =
    let ih = settle_attempts_again now now' provider reference transaction status more in
    elim (Bool-cases (is_settled_by provider reference transaction a)) [
      | inl hit ↦
          let (still, same) =
            settle_attempt_again now now' provider reference transaction status a hit in
          rw (hit, still, ih, same) refl
      | inr miss ↦ rw (miss, miss, ih) refl
    ]

-- A verified payment that is settled again, at any later time, is found as it was left, unless the
-- statement fails.
pub settle_payment_ledger_again :
    (fails : Bool) (now now' : ℕ) (provider reference transaction status : Text)
    (attempts rows : List Attempt)
    → settle_payment_ledger fails now provider reference transaction status attempts ≡ ok rows
    → settle_payment_ledger false now' provider reference transaction status rows ≡ ok rows
unfolding settle_payment_ledger
settle_payment_ledger_again fails now now' provider reference transaction status attempts rows ran =
    let again = settle_attempts_again now now' provider reference transaction status attempts in
    let e : (settle_attempts now provider reference transaction status attempts).0 ≡ rows =
      ground arith in
    rw (sym e, again) (ground arith)

-- The transaction is not that of the row.
abbrev IsAnother : Text → Option Text → Type 0
IsAnother transaction none = Unit
IsAnother transaction (some s) = text_eq s transaction ≡ false

abbrev pub Lacks : Text → Attempt → Type 0
Lacks transaction a = IsAnother transaction a.transaction

assigned_other :
    (o : Option Text) (transaction other : Text)
    → is_empty transaction ≡ false
    → text_eq transaction other ≡ false
    → IsAnother other o
    → accepts (assigned o transaction) other ≡ false
assigned_other none transaction other full differ lacks = rw full differ
assigned_other (some s) transaction other full differ lacks = lacks

settled_for_another :
    (now : ℕ) (provider reference transaction other status : Text) (a : Attempt)
    → is_empty transaction ≡ false
    → text_eq transaction other ≡ false
    → Lacks other a
    → is_settled_by provider reference other (settle_attempt now transaction status a) ≡ false
unfolding is_settled_by
settled_for_another now provider reference transaction other status a full differ lacks =
    rw (assigned_other a.transaction transaction other full differ lacks) (ground arith)

unmet_by_another :
    (provider reference transaction other : Text) (a : Attempt)
    → is_settled_by provider reference transaction a ≡ false
    → Lacks other a
    → is_settled_by provider reference other a ≡ false
unfolding is_settled_by
unmet_by_another provider reference transaction other a miss lacks = ground arith

settle_attempts_other :
    (now now' : ℕ) (provider reference transaction other status status' : Text)
    (attempts : List Attempt)
    → is_empty transaction ≡ false
    → text_eq transaction other ≡ false
    → All (Lacks other) attempts
    → (settle_attempts now' provider reference other status'
        (settle_attempts now provider reference transaction status attempts).0).1
      ≡ 0
unfolding settle_attempts
settle_attempts_other now now' provider reference transaction other status status' [] full differ
      lacks =
    refl
settle_attempts_other now now' provider reference transaction other status status' (a ∷ more) full
      differ lacks =
    let ih =
      settle_attempts_other now now' provider reference transaction other status status' more full
        differ lacks.1 in
    elim (Bool-cases (is_settled_by provider reference transaction a)) [
      | inl hit ↦
          rw
            (
              hit,
              settled_for_another now provider reference transaction other status a full differ
                  lacks.0,
            )
            ih
      | inr miss ↦
          rw (miss, unmet_by_another provider reference transaction other a miss lacks.0) ih
    ]

-- A payment that is settled with a transaction of the gateway, whose identifier is not empty, cannot
-- be settled with another one that stands on none of the payments before.
pub settle_payment_ledger_other :
    (fails broken : Bool) (now now' : ℕ)
    (provider reference transaction other status status' : Text)
    (attempts rows rows' : List Attempt)
    → is_empty transaction ≡ false
    → text_eq transaction other ≡ false
    → All (Lacks other) attempts
    → settle_payment_ledger fails now provider reference transaction status attempts ≡ ok rows
    → settle_payment_ledger broken now' provider reference other status' rows ≢ ok rows'
unfolding settle_payment_ledger
settle_payment_ledger_other fails broken now now' provider reference transaction other status
      status' attempts rows rows' full differ lacks ran =
    let none_met =
      settle_attempts_other now now' provider reference transaction other status status' attempts
        full differ lacks in
    let e : (settle_attempts now provider reference transaction status attempts).0 ≡ rows =
      ground arith in
    λ again. ground (
      arith,
      ap (λ x. (settle_attempts now' provider reference other status' x).1) (sym e) ∙ none_met,
    )
