-- ===== src/Play/Process.antt =====
-- `Process` of internal/playbilling/store.go, from its transaction to the commit, and the removal
-- of the checkout intent. What Google says of the purchase, the plan of the product, the lock of
-- the provider, the hash of the token and the identifier of a new subscription are inputs. Its
-- statements: 0 begins, 1 locks, 2 looks for a refund, 3 reads the plan, 4 the purchase, 5 binds
-- the account, 6 looks for a conflict, 7 enters the subscription, 8 seals the token, 9 stores the
-- purchase, 10 and 11 enter the receipt and the payment, 12 updates the subscription, 13 enters a
-- refund, 14 commits.
use across_backend_api.Prelude.{
  ℕ, suc, Bool, true, false, not, ◌&&◌, ◌||◌, Option, none, some, List, [], ◌∷◌, ◌==◌,
  if◌then◌else◌,
}
use across_backend_api.Prelude.Text.{Text, codes, text_eq, mem_text}
use across_backend_api.Prelude.Outcome.{Outcome, ok, err, ◌>>=◌, ◌>>◌, reject_if}
use across_backend_api.Play.Receipts.{Verified}
use across_backend_api.Play.Tables.{Plan, RefundJob, StoredPurchase, Subscription, Billing, Result}
use across_backend_api.Play.Purchases.{
  find_refund, find_purchase, has_conflict, result_of, refund_result, bind_account, stored_check,
  add_job, has_job, next_check, upsert_purchase, record_payment,
}

-- The inputs of a call that the program reads elsewhere.
pub record Call : Type 0 where
  pub now : ℕ
  pub push : Bool
  pub well_formed : Bool  -- the provider, the token, the product and the plan
  pub locked : Bool
  pub provider : Text
  pub hash : Text
  pub product : Text
  pub base_plan : Text
  pub plan : Option Plan
  pub new_id : Text
  pub verified : Outcome Text Verified

abbrev pub storage : Text
storage = codes "storage"

abbrev pub ineligible : Text
ineligible = codes "ineligible"

abbrev pub status_of : Verified → Text
status_of v =
    if v.pending then codes "pending" else if v.active then codes "active" else codes "expired"

abbrev starts : Option ℕ → ℕ → Option ℕ
starts (some t) now = some t
starts none now = some now

-- The update of a subscription.
unfoldable pub entitle : ℕ → Verified → Subscription → Subscription
entitle now v s = record s {
  status = status_of v;
  starts_at = starts s.starts_at now;
  period_end = some v.expires_at;
  last_payment_at = if v.active then some now else s.last_payment_at;
  version = suc s.version;
}

unfoldable pub entitle_subscription : ℕ → Text → Verified → List Subscription → List Subscription
unfolding text_eq entitle
entitle_subscription now id v [] = []
entitle_subscription now id v (s ∷ more) =
    (if text_eq s.id id && text_eq s.billing_provider (codes "google_play")
      then entitle now v s
      else s)
    ∷ entitle_subscription now id v more

unfoldable pub stored : Call → Text → Verified → StoredPurchase
unfolding next_check mem_text
stored call subscription v = record {
  hash = call.hash;
  provider = call.provider;
  subscription = subscription;
  product = call.product;
  base_plan = call.base_plan;
  state = v.state;
  auto_renews = v.auto_renews;
  test = v.test;
  needs_acknowledgement = v.needs_acknowledgement;
  next_check_at = stored_check v.state (next_check call.push call.now v);
}

-- The removal of the intent behind the commit; its failure is ignored.
unfoldable pub without_intent : Text → List Text → List Text
unfolding text_eq
without_intent provider [] = []
without_intent provider (p ∷ more) =
    let rest = without_intent provider more in if text_eq p provider then rest else p ∷ rest

-- From the sealing of the token to the commit, for the purchase of a subscription.
unfoldable pub store_purchase : (ℕ → Bool) → Call → Text → Verified → Billing → Outcome Text Billing
unfolding upsert_purchase stored record_payment entitle_subscription
store_purchase fails call subscription v db = do
  reject_if (fails 8) (codes "vault")
  let (rows, n) = upsert_purchase (stored call subscription v) db.purchases
  reject_if (fails 9 || not (n == 1)) (codes "token ownership")
  paid ← record_payment fails subscription v (record db { purchases = rows })
  reject_if (fails 12) (codes "entitlement")
  reject_if (fails 14) (codes "confirmation")
  ok (record paid {
    subscriptions = entitle_subscription call.now subscription v paid.subscriptions;
  })

abbrev pub committed : Bool → Text → Billing → Billing
committed true provider db = db
committed false provider db = record db { intents = without_intent provider db.intents }

abbrev pub Done : Type 0
Done = Outcome Text (Billing × Result)

abbrev pub finish : (ℕ → Bool) → Call → Verified → Outcome Text Billing → Done
finish fails call v stored_db =
    stored_db >>= λ db. ok (committed (fails 15) call.provider db, result_of v)

abbrev pub new_subscription : Call → Plan → Subscription
new_subscription call plan = record {
  id = call.new_id;
  provider = call.provider;
  plan = plan.id;
  status = codes "pending";
  billing_provider = codes "google_play";
  billing_mode = codes "one_time";
  amount_minor = plan.amount_minor;
  months = plan.months;
  email = plan.email;
  starts_at = none;
  period_end = none;
  last_payment_at = none;
  version = 1;
}

abbrev pub refund_job : Call → RefundJob
refund_job call = record {
  hash = call.hash;
  provider = call.provider;
  product = call.product;
  base_plan = call.base_plan;
  status = codes "requested";
}

-- A purchase that conflicts: one that waits for its payment is left, any other is to be refunded.
abbrev pub process_conflict : (ℕ → Bool) → Call → Verified → Bool → Billing → Billing → Done
process_conflict fails call v true before db = ok (before, result_of v)
process_conflict fails call v false before db = do
  reject_if (fails 8) (codes "vault")
  reject_if (fails 13) (codes "refund")
  reject_if (fails 14) (codes "refund is uncertain")
  ok (
    record db { refunds = add_job (refund_job call) db.refunds },
    refund_result (codes "requested"),
  )

abbrev pub process_free : (ℕ → Bool) → Call → Plan → Verified → Bool → Billing → Billing → Done
process_free fails call plan v true before db = process_conflict fails call v v.pending before db
process_free fails call plan v false before db = do
  reject_if (fails 7) storage
  finish fails call v (
      store_purchase fails call call.new_id v
        (record db { subscriptions = new_subscription call plan ∷ db.subscriptions }))

-- A purchase that is new: without a payment and without one to come nothing is stored.
unfoldable pub process_new : (ℕ → Bool) → Call → Plan → Verified → Billing → Billing → Done
unfolding has_conflict has_job store_purchase without_intent
process_new fails call plan v before db =
    if not v.active && not v.pending
    then ok (before, result_of v)
    else reject_if (fails 6) storage
      >> process_free fails call plan v (has_conflict call.provider call.now db) before db

abbrev pub same_purchase : Call → StoredPurchase → Bool
same_purchase call p =
    text_eq p.provider call.provider
    && text_eq p.product call.product
    && text_eq p.base_plan call.base_plan

-- What a stored purchase, or none, asks of the call.
abbrev pub guard_purchase : Call → Plan → Option StoredPurchase → Outcome Text (Unit {0})
guard_purchase call plan (some p) = reject_if (not (same_purchase call p)) ineligible
guard_purchase call plan none = reject_if (not (plan.enabled && plan.eligible)) ineligible

abbrev pub continue_purchase :
    (ℕ → Bool) → Call → Plan → Verified → Option StoredPurchase → Billing → Billing → Done
continue_purchase fails call plan v (some p) before db =
    finish fails call v (store_purchase fails call p.subscription v db)
continue_purchase fails call plan v none before db = process_new fails call plan v before db

abbrev pub process_plan : (ℕ → Bool) → Call → Option Plan → Billing → Done
process_plan fails call none db = err ineligible
process_plan fails call (some plan) db = do
  reject_if (fails 4) storage
  guard_purchase call plan (find_purchase call.hash db.purchases)
  reject_if (fails 5) (codes "account binding")
  v ← call.verified
  continue_purchase fails call plan v (find_purchase call.hash db.purchases) db
      (bind_account call.provider db)

abbrev pub process_refund : (ℕ → Bool) → Call → Option Text → Billing → Done
process_refund fails call (some status) db = ok (db, refund_result status)
process_refund fails call none db =
    reject_if (fails 3) ineligible >> process_plan fails call call.plan db

-- `Process`, up to the acknowledgement.
unfoldable pub process : (ℕ → Bool) → Call → Billing → Done
unfolding find_refund find_purchase mem_text text_eq process_new store_purchase without_intent
process fails call db = do
  reject_if (not call.well_formed) ineligible
  reject_if (fails 0) storage
  reject_if (fails 1) storage
  reject_if (not call.locked) (codes "busy")
  reject_if (fails 2) storage
  process_refund fails call (find_refund call.hash call.provider db.refunds) db
