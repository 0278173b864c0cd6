-- ===== src/Play/Ownership.antt =====
-- To whom a purchase of the Play Store belongs, internal/playbilling/store.go.
use across_backend_api.Prelude.{
  and_both, ◌⊎◌, sym, ap, ℕ, ◌≡◌, refl, subst, inl, inr, Bool, true, false, not, ◌&&◌, Option, none,
  some, Bool-cases,
}
use across_backend_api.Prelude.Text.{Text, codes, text_eq, text_eq_sound}
use across_backend_api.Prelude.Outcome.{ok_same, err_ok, ok, >>=-ok, reject_if-ok}
use across_backend_api.Play.Receipts.{Verified}
use across_backend_api.Play.Tables.{Plan, StoredPurchase, Billing, Result}
use across_backend_api.Play.Purchases.{find_refund, find_purchase, has_conflict, bind_account}
use across_backend_api.Play.Process.{
  Call, process_conflict, process_free, process_new, continue_purchase, guard_purchase,
  process_plan, process_refund, process, same_purchase, ineligible, storage,
}
use across_backend_api.Play.Books.{process-guards}

-- The stored purchase is what the call says: of its provider, its product and its plan.
same_purchase_sound :
    (call : Call) (p : StoredPurchase)
    → same_purchase call p ≡ true
    → (p.provider ≡ call.provider) × (p.product ≡ call.product) × (p.base_plan ≡ call.base_plan)
same_purchase_sound call p h =
    let (first, plan) =
      and_both (text_eq p.provider call.provider && text_eq p.product call.product)
        (text_eq p.base_plan call.base_plan) h in
    let (provider, product) =
      and_both (text_eq p.provider call.provider) (text_eq p.product call.product) first in
    (
      text_eq_sound p.provider call.provider provider,
      text_eq_sound p.product call.product product,
      text_eq_sound p.base_plan call.base_plan plan,
    )

plan_foreign :
    (fails : ℕ → Bool) (call : Call) (plan : Option Plan) (db : Billing) (p : StoredPurchase)
    {x : Billing × Result}
    → find_purchase call.hash db.purchases ≡ some p
    → process_plan fails call plan db ≡ ok x
    → same_purchase call p ≡ true
plan_foreign fails call none db p {x} found e = err_ok ineligible x e
plan_foreign fails call (some plan) db p {x} found e =
    let (a, e1) = reject_if-ok (fails 4) storage _ e in
    elim (Bool-cases (same_purchase call p)) [
      | inl same ↦ same
      | inr foreign ↦ err_ok ineligible x (rw (found, foreign) at e1)
    ]

refund_foreign :
    (fails : ℕ → Bool) (call : Call) (refund : Option Text) (db after : Billing)
    (p : StoredPurchase) (r : Result)
    → find_purchase call.hash db.purchases ≡ some p
    → process_refund fails call refund db ≡ ok (after, r)
    → ((p.provider ≡ call.provider) × (p.product ≡ call.product) × (p.base_plan ≡ call.base_plan))
      ⊎ ((after ≡ db) × ((status : Text) × (refund ≡ some status)))
refund_foreign fails call (some status) db after p r found e =
    inr (sym (ap (λ z. z.0) (ok_same _ (after, r) e)), (status, refl))
refund_foreign fails call none db after p r found e = inl (
    same_purchase_sound call p
      (plan_foreign fails call call.plan db p found (reject_if-ok (fails 3) ineligible _ e).1))

-- Where a purchase with the call's token is on record, a call that succeeds is of the provider, the
-- product and the plan on record; or the tables stay as they are, for a refund of that token and
-- provider that is on record.
pub process-foreign :
    (fails : ℕ → Bool) (call : Call) (db after : Billing) (p : StoredPurchase) (r : Result)
    → find_purchase call.hash db.purchases ≡ some p
    → process fails call db ≡ ok (after, r)
    → ((p.provider ≡ call.provider) × (p.product ≡ call.product) × (p.base_plan ≡ call.base_plan))
      ⊎ ((after ≡ db)
          × ((status : Text) × (find_refund call.hash call.provider db.refunds ≡ some status)))
process-foreign fails call db after p r found e =
    refund_foreign fails call (find_refund call.hash call.provider db.refunds) db after p r found
      (process-guards fails call db e)

-- What a provider has: subscriptions, purchases, receipts and payments.
abbrev pub SameHoldings : Billing → Billing → Type 0
SameHoldings a b =
    (b.subscriptions ≡ a.subscriptions)
    × (b.purchases ≡ a.purchases)
    × (b.receipts ≡ a.receipts)
    × (b.payments ≡ a.payments)

conflict_holdings :
    (fails : ℕ → Bool) (call : Call) (v : Verified) (pending : Bool) (before db after : Billing)
    (r : Result)
    → SameHoldings before db
    → process_conflict fails call v pending before db ≡ ok (after, r)
    → SameHoldings before after
conflict_holdings fails call v true before db after r same e =
    subst (λ z. SameHoldings before z.0) (ok_same _ (after, r) e) (refl, refl, refl, refl)
conflict_holdings fails call v false before db after r same e =
    let (x, e1) = reject_if-ok (fails 8) (codes "vault") _ e in
    let (y, e2) = reject_if-ok (fails 13) (codes "refund") _ e1 in
    let (z, e3) = reject_if-ok (fails 14) (codes "refund is uncertain") _ e2 in
    subst (λ w. SameHoldings before w.0) (ok_same _ (after, r) e3) same

new_holdings :
    (fails : ℕ → Bool) (call : Call) (plan : Plan) (v : Verified) (before db after : Billing)
    (r : Result)
    → SameHoldings before db
    → has_conflict call.provider call.now db ≡ true
    → process_new fails call plan v before db ≡ ok (after, r)
    → SameHoldings before after
unfolding process_new
new_holdings fails call plan v before db after r same conflict e =
    elim (Bool-cases (not v.active && not v.pending)) [
      | inl nothing ↦
          subst (λ z. SameHoldings before z.0) (ok_same _ (after, r) (rw nothing at e))
            (refl, refl, refl, refl)
      | inr something ↦
          let (x, e1) = reject_if-ok (fails 6) storage _ (rw something at e) in
          let e2 =
            subst (λ b. process_free fails call plan v b before db ≡ ok (after, r)) conflict e1 in
          conflict_holdings fails call v v.pending before db after r same e2
    ]

bound_conflict :
    (provider : Text) (now : ℕ) (db : Billing)
    → has_conflict provider now db ≡ true
    → has_conflict provider now (bind_account provider db) ≡ true
unfolding has_conflict
bound_conflict provider now db h = h

plan_holdings :
    (fails : ℕ → Bool) (call : Call) (plan : Option Plan) (db after : Billing) (r : Result)
    → find_purchase call.hash db.purchases ≡ none
    → has_conflict call.provider call.now db ≡ true
    → process_plan fails call plan db ≡ ok (after, r)
    → SameHoldings db after
plan_holdings fails call none db after r new conflict e = err_ok ineligible (after, r) e
plan_holdings fails call (some plan) db after r new conflict e =
    let (x, e1) = reject_if-ok (fails 4) storage _ e in
    let (u, guarded, e2) =
      >>=-ok (guard_purchase call plan (find_purchase call.hash db.purchases)) _ e1 in
    let (y, e3) = reject_if-ok (fails 5) (codes "account binding") _ e2 in
    let (v, verified, e4) = >>=-ok call.verified _ e3 in
    let bound : Billing = bind_account call.provider db in
    let e5 = subst (λ p. continue_purchase fails call plan v p db bound ≡ ok (after, r)) new e4 in
    new_holdings fails call plan v db bound after r (refl, refl, refl, refl)
      (bound_conflict call.provider call.now db conflict) e5

refund_holdings :
    (fails : ℕ → Bool) (call : Call) (refund : Option Text) (db after : Billing) (r : Result)
    → find_purchase call.hash db.purchases ≡ none
    → has_conflict call.provider call.now db ≡ true
    → process_refund fails call refund db ≡ ok (after, r)
    → SameHoldings db after
refund_holdings fails call (some status) db after r new conflict e =
    subst (λ z. SameHoldings db z.0) (ok_same _ (after, r) e) (refl, refl, refl, refl)
refund_holdings fails call none db after r new conflict e =
    plan_holdings fails call call.plan db after r new conflict
      (reject_if-ok (fails 3) ineligible _ e).1

-- A purchase that is new, of a provider who has a subscription that stands, a purchase that renews
-- or a renewal that is uncertain, leaves the provider's subscriptions, purchases, receipts and
-- payments as they are: it is never a second subscription.
pub process-conflict :
    (fails : ℕ → Bool) (call : Call) (db after : Billing) (r : Result)
    → find_purchase call.hash db.purchases ≡ none
    → has_conflict call.provider call.now db ≡ true
    → process fails call db ≡ ok (after, r)
    → SameHoldings db after
process-conflict fails call db after r new conflict e =
    refund_holdings fails call (find_refund call.hash call.provider db.refunds) db after r new
      conflict (process-guards fails call db e)
