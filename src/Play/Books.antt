-- ===== src/Play/Books.antt =====
-- The books of the Play Store through a call of `Process`, internal/playbilling/store.go.
use across_backend_api.Prelude.{
  ℕ, ◌≡◌, subst, inl, inr, Bool, true, false, not, ◌&&◌, Option, none, some, ◌∷◌, Bool-cases,
}
use across_backend_api.Prelude.Text.{Text, codes}
use across_backend_api.Prelude.Outcome.{ok_same, err_ok, Outcome, ok, >>=-ok, reject_if-ok}
use across_backend_api.Play.Receipts.{Verified}
use across_backend_api.Play.Tables.{Plan, StoredPurchase, Billing, Result}
use across_backend_api.Play.Purchases.{find_refund, find_purchase, bind_account}
use across_backend_api.Play.Process.{
  Call, finish, process_conflict, process_free, process_new, continue_purchase, guard_purchase,
  process_plan, process_refund, process, ineligible, storage, new_subscription,
}
use across_backend_api.Play.Entries.{Books, store_purchase-Books, committed_Books}

finish-Books :
    (fails : ℕ → Bool) (call : Call) (v : Verified) (m : Outcome Text Billing) (after : Billing)
    (r : Result)
    → ((db : Billing) → m ≡ ok db → Books db)
    → finish fails call v m ≡ ok (after, r)
    → Books after
finish-Books fails call v m after r k e =
    let (db, e1, e2) = >>=-ok m _ e in
    subst (λ z. Books z.0) (ok_same _ (after, r) e2)
      (committed_Books (fails 15) call.provider db (k db e1))

process_conflict-Books :
    (fails : ℕ → Bool) (call : Call) (v : Verified) (pending : Bool) (before db after : Billing)
    (r : Result)
    → process_conflict fails call v pending before db ≡ ok (after, r)
    → Books before
    → Books db
    → Books after
process_conflict-Books fails call v true before db after r e b b' =
    subst (λ z. Books z.0) (ok_same _ (after, r) e) b
process_conflict-Books fails call v false before db after r e b b' =
    let (x, e1) = reject_if-ok (fails 8) (codes "vault") _ e in
    let (y, e2) = reject_if-ok (fails 13) (codes "refund") _ e1 in
    let (z, e3) = reject_if-ok (fails 14) (codes "refund is uncertain") _ e2 in
    subst (λ w. Books w.0) (ok_same _ (after, r) e3) b'

process_free-Books :
    (fails : ℕ → Bool) (call : Call) (plan : Plan) (v : Verified) (conflict : Bool)
    (before db after : Billing) (r : Result)
    → process_free fails call plan v conflict before db ≡ ok (after, r)
    → Books before
    → Books db
    → Books after
process_free-Books fails call plan v true before db after r e b b' =
    process_conflict-Books fails call v v.pending before db after r e b b'
process_free-Books fails call plan v false before db after r e b b' =
    let (x, e1) = reject_if-ok (fails 7) storage _ e in
    finish-Books fails call v _ after r
      (λ next h.
        store_purchase-Books fails call call.new_id v
          (record db { subscriptions = new_subscription call plan ∷ db.subscriptions }) next h b')
      e1

process_new-Books :
    (fails : ℕ → Bool) (call : Call) (plan : Plan) (v : Verified) (before db after : Billing)
    (r : Result)
    → process_new fails call plan v before db ≡ ok (after, r)
    → Books before
    → Books db
    → Books after
unfolding process_new
process_new-Books fails call plan v before db after r e b b' =
    elim (Bool-cases (not v.active && not v.pending)) [
      | inl nothing ↦ subst (λ z. Books z.0) (ok_same _ (after, r) (rw nothing at e)) b
      | inr something ↦
          let (x, e1) = reject_if-ok (fails 6) storage _ (rw something at e) in
          process_free-Books fails call plan v _ before db after r e1 b b'
    ]

continue_purchase-Books :
    (fails : ℕ → Bool) (call : Call) (plan : Plan) (v : Verified) (p : Option StoredPurchase)
    (before db after : Billing) (r : Result)
    → continue_purchase fails call plan v p before db ≡ ok (after, r)
    → Books before
    → Books db
    → Books after
continue_purchase-Books fails call plan v none before db after r e b b' =
    process_new-Books fails call plan v before db after r e b b'
continue_purchase-Books fails call plan v (some p) before db after r e b b' =
    finish-Books fails call v _ after r
      (λ next h. store_purchase-Books fails call p.subscription v db next h b') e

process_plan-Books :
    (fails : ℕ → Bool) (call : Call) (plan : Option Plan) (db after : Billing) (r : Result)
    → process_plan fails call plan db ≡ ok (after, r)
    → Books db
    → Books after
process_plan-Books fails call none db after r e b = err_ok ineligible (after, r) e
process_plan-Books fails call (some plan) db after r e b =
    let (x, e1) = reject_if-ok (fails 4) storage _ e in
    let (u, guarded, e2) =
      >>=-ok (guard_purchase call plan (find_purchase call.hash db.purchases)) _ e1 in
    let (y, e3) = reject_if-ok (fails 5) (codes "account binding") _ e2 in
    let (v, verified, e4) = >>=-ok call.verified _ e3 in
    continue_purchase-Books fails call plan v (find_purchase call.hash db.purchases) db
      (bind_account call.provider db) after r e4 b b

process_refund-Books :
    (fails : ℕ → Bool) (call : Call) (refund : Option Text) (db after : Billing) (r : Result)
    → process_refund fails call refund db ≡ ok (after, r)
    → Books db
    → Books after
process_refund-Books fails call (some status) db after r e b =
    subst (λ z. Books z.0) (ok_same _ (after, r) e) b
process_refund-Books fails call none db after r e b =
    process_plan-Books fails call call.plan db after r (reject_if-ok (fails 3) ineligible _ e).1 b

pub process-guards :
    (fails : ℕ → Bool) (call : Call) (db : Billing) {x : Billing × Result}
    → process fails call db ≡ ok x
    → process_refund fails call (find_refund call.hash call.provider db.refunds) db ≡ ok x
unfolding process
process-guards fails call db e =
    let (a, e1) = reject_if-ok (not call.well_formed) ineligible _ e in
    let (b, e2) = reject_if-ok (fails 0) storage _ e1 in
    let (c, e3) = reject_if-ok (fails 1) storage _ e2 in
    let (d, e4) = reject_if-ok (not call.locked) (codes "busy") _ e3 in
    (reject_if-ok (fails 2) storage _ e4).1

-- A call that succeeds enters no order twice: what has one receipt and one payment at most for each
-- order before has it after.
pub process-Books :
    (fails : ℕ → Bool) (call : Call) (db after : Billing) (r : Result)
    → process fails call db ≡ ok (after, r)
    → Books db
    → Books after
unfolding process
process-Books fails call db after r e b =
    process_refund-Books fails call (find_refund call.hash call.provider db.refunds) db after r
      (process-guards fails call db e) b
