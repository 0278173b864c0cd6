-- ===== src/Payments/Paid.antt =====
-- What the first payment of an order leaves, internal/controllers/payment_controller.go.
use across_backend_api.Prelude.{
  some_same, ℕ, ◌≡◌, refl, sym, ap, subst, ◌∙◌, inl, inr, Bool, true, false, ◌&&◌, ◌||◌, Option,
  none, some, List, [], ◌∷◌, arith, ◌==◌, if◌then◌else◌, Bool-cases,
}
use across_backend_api.Prelude.Text.{Text, codes, text_eq, text_eq_sound, mem_text}
use across_backend_api.Prelude.Outcome.{ok, >>=-ok, reject_if-ok, ok_same, err_ok}
use across_backend_api.Xp.Rows.{Faults}
use across_backend_api.Xp.Redemptions.{consume_xp}
use across_backend_api.Payments.Attempts.{settle_payment_ledger}
use across_backend_api.Payments.Tables.{PayableOrder, Shop}
use across_backend_api.Payments.Orders.{
  Payment, find_payable, pay_order, pay_pending, pay_first, paid_statuses, found_order, seller_of,
  seller_or_error, from_xp,
}

pub and_left : (a b : Bool) → (a && b) ≡ true → a ≡ true
and_left true b h = refl
and_left false b h = absurd (ground arith)

pub found_some : (m : Option PayableOrder) (o : PayableOrder) → found_order m ≡ ok o → m ≡ some o
found_some none o e = err_ok (codes "no order") o e
found_some (some p) o e = ap some (ok_same p o e)

-- The order that was pending is found as it was paid.
pub find_payable-pay_pending :
    (now : ℕ) (id tx_ref transaction : Text) (orders : List PayableOrder) (o : PayableOrder)
    → find_payable id orders ≡ some o
    → text_eq o.status (codes "Pending") ≡ true
    → find_payable id (pay_pending now id tx_ref transaction orders).0
      ≡ some (pay_order now tx_ref transaction o)
unfolding find_payable pay_pending
find_payable-pay_pending now id tx_ref transaction [] o e s = absurd (ground arith)
find_payable-pay_pending now id tx_ref transaction (h ∷ more) o e s =
    elim (Bool-cases (text_eq h.id id)) [
      | inl own ↦
          let same : h ≡ o =
            some_same h o
              (subst (λ b. (if b then some h else find_payable id more) ≡ some o) own e) in
          let pending : text_eq h.status (codes "Pending") ≡ true =
            subst (λ z. text_eq z.status (codes "Pending") ≡ true) (sym same) s in
          rw (own, pending, own) (ap (λ z. some (pay_order now tx_ref transaction z)) same)
      | inr other ↦
          rw (other, other)
            (find_payable-pay_pending now id tx_ref transaction more o
              (subst (λ b. (if b then some h else find_payable id more) ≡ some o) other e) s)
    ]

pub paid_not_pending : text_eq (codes "Paid") (codes "Pending") ≡ false
unfolding text_eq
paid_not_pending = refl

pub paid_is_paid : mem_text (codes "Paid") paid_statuses ≡ true
unfolding mem_text
paid_is_paid = refl

pub found_id :
    (id : Text) (orders : List PayableOrder) (o : PayableOrder)
    → find_payable id orders ≡ some o
    → o.id ≡ id
unfolding find_payable
found_id id [] o e = absurd (ground arith)
found_id id (h ∷ more) o e = elim (Bool-cases (text_eq h.id id)) [
  | inl own ↦
      let same : h ≡ o =
        some_same h o (subst (λ b. (if b then some h else find_payable id more) ≡ some o) own e) in
      ap (λ z. z.id) (sym same) ∙ text_eq_sound h.id id own
  | inr other ↦
      found_id id more o
        (subst (λ b. (if b then some h else find_payable id more) ≡ some o) other e)
]

-- What a first payment leaves.
pub record Paid (now : ℕ) (p : Payment) (o : PayableOrder) (before after : Shop) : Type 0 where
  pub orders : after.orders ≡ (pay_pending now o.id p.tx_ref p.transaction before.orders).0
  pub fails : Bool
  pub attempts :
      settle_payment_ledger fails now p.provider p.tx_ref p.transaction
        (codes "successful")
        before.attempts
      ≡ ok after.attempts

pub pay_first-Paid :
    (fails xp_fails : Faults) (now : ℕ) (p : Payment) (o : PayableOrder) (before after : Shop)
    → pay_first fails xp_fails now p o before ≡ ok after
    → Paid now p o before after
unfolding pay_first
pay_first-Paid fails xp_fails now p o before after e =
    let (attempts, settled, e1) =
      >>=-ok
        (settle_payment_ledger (fails 3) now p.provider p.tx_ref p.transaction (codes "successful")
          before.attempts)
        _ e in
    let (seller, selling, e2) = >>=-ok (seller_or_error (seller_of o)) _ e1 in
    let (one, e3) = reject_if-ok (fails 4 || _ == 0) (codes "order is not payable") _ e2 in
    let (a, e4) = reject_if-ok (fails 5) (codes "database") _ e3 in
    let (xp, spent, e5) = >>=-ok (from_xp (consume_xp xp_fails o.id _)) _ e4 in
    let (b, e6) = reject_if-ok (fails 6) (codes "database") _ e5 in
    let (c, e7) = reject_if-ok (fails 7) (codes "database") _ e6 in
    let (d, e8) = reject_if-ok (fails 8) (codes "database") _ e7 in
    subst (Paid now p o before) (ok_same _ after e8)
      (record { orders = refl; fails = fails 3; attempts = settled })
