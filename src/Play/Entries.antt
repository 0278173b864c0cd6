-- ===== src/Play/Entries.antt =====
-- The entering of receipts and payments, internal/playbilling/store.go.
use across_backend_api.Prelude.{
  ℕ, ◌≡◌, refl, subst, ◌⊎◌, inl, inr, Bool, true, false, not, ◌||◌, Option, none, some, List, [],
  ◌∷◌, ◌==◌, if◌then◌else◌, Bool-cases,
}
use across_backend_api.Prelude.Text.{Text, codes, text_eq}
use across_backend_api.Prelude.Outcome.{ok_same, err_ok, ok, ◌>>◌, reject_if, >>=-ok, reject_if-ok}
use across_backend_api.Play.Receipts.{Verified}
use across_backend_api.Play.Tables.{Billing, SubscriptionReceipt, StorePayment}
use across_backend_api.Play.Purchases.{record_payment, receipt_owner, payment_owner, enter}
use across_backend_api.Play.Process.{Call, store_purchase, committed}

abbrev pub EachOnce : List SubscriptionReceipt → Type 0
EachOnce [] = Unit
EachOnce (r ∷ more) = (receipt_owner r.order more ≡ none) × EachOnce more

abbrev pub PaidOnce : List StorePayment → Type 0
PaidOnce [] = Unit
PaidOnce (p ∷ more) = (payment_owner p.transaction more ≡ none) × PaidOnce more

-- An order has one receipt and one payment at most.
abbrev pub Books : Billing → Type 0
Books db = EachOnce db.receipts × PaidOnce db.payments

enter-cases :
    {A : Type 0} (subscription : Text) (owner : Option Text) (row : A) (rows after : List A)
    → enter subscription owner row rows ≡ ok after
    → ((owner ≡ none) × (row ∷ rows ≡ after)) ⊎ (rows ≡ after)
enter-cases subscription none row rows after e = inl (refl, ok_same (row ∷ rows) after e)
enter-cases subscription (some o) row rows after e = elim (Bool-cases (text_eq o subscription)) [
  | inl h ↦ inr (ok_same rows after (rw h at e))
  | inr h ↦ err_ok (codes "order ownership") after (rw h at e)
]

enter-EachOnce :
    (subscription : Text) (r : SubscriptionReceipt) (rows after : List SubscriptionReceipt)
    → enter subscription (receipt_owner r.order rows) r rows ≡ ok after
    → EachOnce rows
    → EachOnce after
enter-EachOnce subscription r rows after e o =
    elim (enter-cases subscription (receipt_owner r.order rows) r rows after e) [
      | inl (new, same) ↦ subst EachOnce same (new, o)
      | inr same ↦ subst EachOnce same o
    ]

enter-PaidOnce :
    (subscription : Text) (p : StorePayment) (rows after : List StorePayment)
    → enter subscription (payment_owner p.transaction rows) p rows ≡ ok after
    → PaidOnce rows
    → PaidOnce after
enter-PaidOnce subscription p rows after e o =
    elim (enter-cases subscription (payment_owner p.transaction rows) p rows after e) [
      | inl (new, same) ↦ subst PaidOnce same (new, o)
      | inr same ↦ subst PaidOnce same o
    ]

payments-PaidOnce :
    (test fails : Bool) (subscription : Text) (p : StorePayment) (rows after : List StorePayment)
    → (if test
        then ok rows
        else reject_if fails (codes "receipt")
          >> enter subscription (payment_owner p.transaction rows) p rows)
      ≡ ok after
    → PaidOnce rows
    → PaidOnce after
payments-PaidOnce true fails subscription p rows after e o = subst PaidOnce (ok_same rows after e) o
payments-PaidOnce false fails subscription p rows after e o =
    enter-PaidOnce subscription p rows after (reject_if-ok fails (codes "receipt") _ e).1 o

record_payment-Books :
    (fails : ℕ → Bool) (subscription : Text) (v : Verified) (db after : Billing)
    → record_payment fails subscription v db ≡ ok after
    → Books db
    → Books after
unfolding record_payment
record_payment-Books fails subscription v db after e (r, p) = elim (Bool-cases v.active) [
  | inr idle ↦ subst Books (ok_same db after (rw idle at e)) (r, p)
  | inl active ↦
      let (open', e1) = reject_if-ok (fails 10) (codes "order ownership") _ (rw active at e) in
      let (receipts, e2, e3) =
        >>=-ok (enter subscription (receipt_owner v.order db.receipts) _ db.receipts) _ e1 in
      let (payments, e4, e5) = >>=-ok _ _ e3 in
      subst Books (ok_same _ after e5) (
        enter-EachOnce subscription _ db.receipts receipts e2 r,
        payments-PaidOnce v.test (fails 11) subscription _ db.payments payments e4 p,
      )
]

pub store_purchase-Books :
    (fails : ℕ → Bool) (call : Call) (subscription : Text) (v : Verified) (db after : Billing)
    → store_purchase fails call subscription v db ≡ ok after
    → Books db
    → Books after
unfolding store_purchase
store_purchase-Books fails call subscription v db after e b =
    let (sealed, e1) = reject_if-ok (fails 8) (codes "vault") _ e in
    let (one, e2) = reject_if-ok (fails 9 || not (_ == 1)) (codes "token ownership") _ e1 in
    let (paid, e3, e4) = >>=-ok (record_payment fails subscription v _) _ e2 in
    let (a, e5) = reject_if-ok (fails 12) (codes "entitlement") _ e4 in
    let (c, e6) = reject_if-ok (fails 14) (codes "confirmation") _ e5 in
    subst Books (ok_same _ after e6) (record_payment-Books fails subscription v _ paid e3 b)

pub committed_Books :
    (f : Bool) (provider : Text) (db : Billing) → Books db → Books (committed f provider db)
committed_Books true provider db b = b
committed_Books false provider db b = b
