-- ===== src/Payments/Once.antt =====
-- A payment that comes again, internal/controllers/payment_controller.go.
use across_backend_api.Prelude.{
  ◌+◌, or_split, and_both, ltb, ◌≤◌, not-false, ℕ, ◌≢◌, [], ◌∷◌, arith, ◌≡◌, refl, sym, ap, subst,
  ◌∙◌, ◌⊎◌, inl, inr, true, false, not, ◌&&◌, ◌||◌, some, Bool-cases,
}
use across_backend_api.Prelude.Text.{
  Text, codes, text_eq, text_eq_refl, text_eq_sound, to_lower, trim_space, mem_text,
}
use across_backend_api.Prelude.Members.{mem_text_cons, mem_text_single}
use across_backend_api.Prelude.Outcome.{ok, >>=-ok, reject_if-ok, ok_same, err_ok}
use across_backend_api.Prelude.Int.{ℤ, pos, ◌≤ℤ◌, ltb_ℤ, pos_part, neg_part}
use across_backend_api.Prelude.Money.{Float64, kobo, minus_inf}
use across_backend_api.Xp.Rows.{Faults}
use across_backend_api.Payments.Attempts.{settle_payment_ledger}
use across_backend_api.Payments.Attempts.Laws.{settle_payment_ledger_again}
use across_backend_api.Payments.Tables.{PayableOrder, Shop}
use across_backend_api.Payments.Orders.{
  Payment, find_payable, mismatches, pay_order, pay_pending, pay_first, pay_again, paid_statuses,
  settle_order_payment, found_order, is_short,
}
use across_backend_api.Payments.Paid.{
  found_some, find_payable-pay_pending, paid_not_pending, paid_is_paid, found_id, pay_first-Paid,
}

abbrev pub no_faults : Faults
no_faults k = false

-- A payment of an order that is paid already, under the same reference, only goes to the ledger.
settle_paid :
    (now : ℕ) (id : Text) (p : Payment) (o : PayableOrder) (shop : Shop)
    → find_payable id shop.orders ≡ some o
    → mismatches p.paid p.currency o ≡ false
    → text_eq o.status (codes "Pending") ≡ false
    → (text_eq o.tx_ref p.tx_ref && mem_text o.status paid_statuses) ≡ true
    → settle_payment_ledger false now p.provider p.tx_ref p.transaction
        (codes "successful")
        shop.attempts
      ≡ ok shop.attempts
    → settle_order_payment no_faults no_faults now id p shop ≡ ok shop
unfolding settle_order_payment pay_again
settle_paid now id p o shop found fits late same settled =
    rw (found, fits, late, same, settled) refl

pay_again-attempts :
    (fails : Faults) (now : ℕ) (p : Payment) (o : PayableOrder) (before after : Shop)
    → pay_again fails now p o before ≡ ok after
    → ((text_eq o.tx_ref p.tx_ref && mem_text o.status paid_statuses) ≡ true)
      × (after.orders ≡ before.orders)
      × (settle_payment_ledger
            (fails 3)
            now
            p.provider
            p.tx_ref
            p.transaction
            (codes "successful")
            before.attempts
          ≡ ok after.attempts)
unfolding pay_again
pay_again-attempts fails now p o before after e =
    elim (Bool-cases (text_eq o.tx_ref p.tx_ref && mem_text o.status paid_statuses)) [
      | inr other ↦ err_ok (codes "order is not payable") after (rw other at e)
      | inl same ↦
          let (attempts, settled, e1) =
            >>=-ok
              (settle_payment_ledger (fails 3) now p.provider p.tx_ref p.transaction
                (codes "successful") before.attempts)
              _ (rw same at e) in
          let (a, e2) = reject_if-ok (fails 8) (codes "database") _ e1 in
          let kept = ok_same _ after e2 in
          (
            same,
            sym (ap (λ (z : Shop). z.orders) kept),
            settled ∙ ap (λ (z : Shop). ok z.attempts) kept,
          )
    ]

mismatches-pay_order :
    (now : ℕ) (p : Payment) (o : PayableOrder)
    → mismatches p.paid p.currency o ≡ false
    → mismatches p.paid p.currency (pay_order now p.tx_ref p.transaction o) ≡ false
unfolding mismatches
mismatches-pay_order now p o h = h

settle_pending :
    (fails xp_fails : Faults) (now later : ℕ) (id : Text) (p : Payment) (o : PayableOrder)
    (shop after : Shop)
    → find_payable id shop.orders ≡ some o
    → mismatches p.paid p.currency o ≡ false
    → text_eq o.status (codes "Pending") ≡ true
    → pay_first fails xp_fails now p o shop ≡ ok after
    → settle_order_payment no_faults no_faults later id p after ≡ ok after
settle_pending fails xp_fails now later id p o shop after found fits pending e =
    let was = pay_first-Paid fails xp_fails now p o shop after e in
    let own : o.id ≡ id = found_id id shop.orders o found in
    let there : find_payable id after.orders ≡ some (pay_order now p.tx_ref p.transaction o) =
      subst (λ z. find_payable id z ≡ some (pay_order now p.tx_ref p.transaction o))
        (sym was.orders)
        (subst
          (λ z.
            find_payable id (pay_pending now z p.tx_ref p.transaction shop.orders).0
            ≡ some (pay_order now p.tx_ref p.transaction o))
          (sym own)
          (find_payable-pay_pending now id p.tx_ref p.transaction shop.orders o found pending)) in
    settle_paid later id p (pay_order now p.tx_ref p.transaction o) after there
      (mismatches-pay_order now p o fits) paid_not_pending
      (rw (text_eq_refl p.tx_ref, paid_is_paid) refl)
      (settle_payment_ledger_again was.fails now later p.provider p.tx_ref p.transaction
        (codes "successful") shop.attempts after.attempts was.attempts)

settle_late :
    (fails : Faults) (now later : ℕ) (id : Text) (p : Payment) (o : PayableOrder)
    (shop after : Shop)
    → find_payable id shop.orders ≡ some o
    → mismatches p.paid p.currency o ≡ false
    → text_eq o.status (codes "Pending") ≡ false
    → pay_again fails now p o shop ≡ ok after
    → settle_order_payment no_faults no_faults later id p after ≡ ok after
settle_late fails now later id p o shop after found fits late e =
    let (same, orders, settled) = pay_again-attempts fails now p o shop after e in
    settle_paid later id p o after (subst (λ z. find_payable id z ≡ some o) (sym orders) found) fits
      late same
      (settle_payment_ledger_again (fails 3) now later p.provider p.tx_ref p.transaction
        (codes "successful") shop.attempts after.attempts settled)

-- A payment that settled an order is settled once: when it comes again, at any later time and with
-- no statement that fails, it is accepted and changes nothing: the goods are not counted as sold
-- again, and neither the seller's earning nor the points of the buyer are booked twice.
pub settle_order_payment-again :
    (fails xp_fails : Faults) (now later : ℕ) (id : Text) (p : Payment) (shop after : Shop)
    → settle_order_payment fails xp_fails now id p shop ≡ ok after
    → settle_order_payment no_faults no_faults later id p after ≡ ok after
unfolding settle_order_payment
settle_order_payment-again fails xp_fails now later id p shop after e =
    let (a, e1) = reject_if-ok (fails 0 || fails 1 || fails 2) (codes "database") _ e in
    let (o, found, e2) = >>=-ok (found_order (find_payable id shop.orders)) _ e1 in
    let there = found_some (find_payable id shop.orders) o found in
    let (fits, e3) =
      reject_if-ok (mismatches p.paid p.currency o)
        (codes "payment amount or currency does not match order") _ e2 in
    elim (Bool-cases (text_eq o.status (codes "Pending"))) [
      | inl pending ↦
          settle_pending fails xp_fails now later id p o shop after there fits pending
            (rw pending at e3)
      | inr late ↦ settle_late fails now later id p o shop after there fits late (rw late at e3)
    ]

paid_status :
    (s : Text)
    → mem_text s paid_statuses ≡ true
    → (s ≡ codes "Paid")
      ⊎ ((s ≡ codes "Shipped") ⊎ ((s ≡ codes "Delivered") ⊎ (s ≡ codes "Completed")))
paid_status s h =
    elim (mem_text_cons s (codes "Paid")
      (codes "Shipped" ∷ codes "Delivered" ∷ codes "Completed" ∷ []) h) [
        | inl paid ↦ inl paid
        | inr h1 ↦
            elim (mem_text_cons s (codes "Shipped") (codes "Delivered" ∷ codes "Completed" ∷ [])
              h1) [
                | inl shipped ↦ inr (inl shipped)
                | inr h2 ↦ elim (mem_text_cons s (codes "Delivered") (codes "Completed" ∷ []) h2) [
                  | inl delivered ↦ inr (inr (inl delivered))
                  | inr h3 ↦ inr (inr (inr (mem_text_single s (codes "Completed") h3)))
                ]
              ]
      ]

not_below : (a b : ℕ) → ltb a b ≡ false → b ≤ a
not_below a b h = ground arith

long_enough :
    (paid : Float64) (total : ℕ)
    → is_short paid total ≡ false
    → (z : ℤ) → paid ≡ kobo z
    → pos total ≤ℤ z
unfolding is_short
long_enough paid total h z e =
    let h1 : ltb_ℤ z (pos total) ≡ false = subst (λ w. is_short w total ≡ false) e h in
    not_below (pos_part z + neg_part (pos total)) (pos_part (pos total) + neg_part z) h1

bounded_below : (paid : Float64) (total : ℕ) → is_short paid total ≡ false → paid ≢ minus_inf
unfolding is_short
bounded_below paid total h e = absurd (ground (arith, subst (λ w. is_short w total ≡ false) e h))

-- An order is settled only by a payment in its currency, whose amount, where it is a number, is not
-- below the order's total, and which is not minus infinity (NaN and infinity pass, as in the code's
-- comparison of floats); and the order was pending, or its status was one of the four paid ones and
-- its reference the payment's.
pub settle_order_payment-fits :
    (fails xp_fails : Faults) (now : ℕ) (id : Text) (p : Payment) (shop after : Shop)
    → settle_order_payment fails xp_fails now id p shop ≡ ok after
    → (o : PayableOrder) × (find_payable id shop.orders ≡ some o)
      × (to_lower o.currency ≡ to_lower (trim_space p.currency))
      × ((z : ℤ) → p.paid ≡ kobo z → pos o.total ≤ℤ z)
      × (p.paid ≢ minus_inf)
      × ((o.status ≡ codes "Pending")
          ⊎ ((o.tx_ref ≡ p.tx_ref)
              × ((o.status ≡ codes "Paid")
                  ⊎ ((o.status ≡ codes "Shipped")
                      ⊎ ((o.status ≡ codes "Delivered") ⊎ (o.status ≡ codes "Completed"))))))
unfolding settle_order_payment mismatches
settle_order_payment-fits fails xp_fails now id p shop after e =
    let (a, e1) = reject_if-ok (fails 0 || fails 1 || fails 2) (codes "database") _ e in
    let (o, found, e2) = >>=-ok (found_order (find_payable id shop.orders)) _ e1 in
    let there = found_some (find_payable id shop.orders) o found in
    let (fits, e3) =
      reject_if-ok
        (not (text_eq (to_lower o.currency) (to_lower (trim_space p.currency)))
          || is_short p.paid o.total)
        (codes "payment amount or currency does not match order") _ e2 in
    let (currency, amount) = or_split (not _) (is_short p.paid o.total) fits in
    (
      o,
      there,
      text_eq_sound _ _ (not-false _ currency),
      long_enough p.paid o.total amount,
      bounded_below p.paid o.total amount,
      elim (Bool-cases (text_eq o.status (codes "Pending"))) [
        | inl pending ↦ inl (text_eq_sound o.status (codes "Pending") pending)
        | inr late ↦
            let (same, kept, settled) =
              pay_again-attempts fails now p o shop after (rw late at e3) in
            let (reference, status) =
              and_both (text_eq o.tx_ref p.tx_ref) (mem_text o.status paid_statuses) same in
            inr (text_eq_sound o.tx_ref p.tx_ref reference, paid_status o.status status)
      ],
    )
