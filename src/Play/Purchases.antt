-- ===== src/Play/Purchases.antt =====
-- The statements of `Process` on its tables, internal/playbilling/store.go. The sealed token is left
-- out.
use across_backend_api.Prelude.{
  ℕ, ◌+◌, ◌-◌, Bool, false, not, ◌&&◌, ◌||◌, Option, none, some, List, [], ◌∷◌, ltb, if◌then◌else◌,
}
use across_backend_api.Prelude.Text.{Text, codes, text_eq, mem_text}
use across_backend_api.Prelude.Outcome.{Outcome, ok, err, ◌>>=◌, ◌>>◌, reject_if}
use across_backend_api.Play.Receipts.{Verified}
use across_backend_api.Play.Tables.{
  RefundJob, StoredPurchase, Subscription, SubscriptionReceipt, StorePayment, Billing, Result,
}

unfoldable pub find_refund : Text → Text → List RefundJob → Option Text
unfolding text_eq
find_refund hash provider [] = none
find_refund hash provider (j ∷ more) =
    let rest = find_refund hash provider more in
    if text_eq j.hash hash && text_eq j.provider provider then some j.status else rest

unfoldable pub find_purchase : Text → List StoredPurchase → Option StoredPurchase
unfolding text_eq
find_purchase hash [] = none
find_purchase hash (p ∷ more) =
    let rest = find_purchase hash more in if text_eq p.hash hash then some p else rest

-- Whether a provider's renewal has a status.
unfoldable pub has_renewal : Text → Text → List (Text × Text) → Bool
unfolding text_eq
has_renewal provider status [] = false
has_renewal provider status ((p, s) ∷ more) =
    text_eq p provider && text_eq s status || has_renewal provider status more

abbrev pub ends_after : Option ℕ → ℕ → Bool
ends_after none now = false
ends_after (some t) now = ltb now t

-- A subscription that stands against another one: it runs, or it renews by card.
abbrev pub stands : ℕ → Bool → Subscription → Bool
stands now stopped s =
    text_eq s.status (codes "active") && ends_after s.period_end now
    || text_eq s.billing_provider (codes "flutterwave")
      && text_eq s.billing_mode (codes "recurring")
      && mem_text s.status
          (codes "pending" ∷ codes "active" ∷ codes "past_due" ∷ codes "grace" ∷ [])
      && not stopped

unfoldable pub has_standing : Text → ℕ → Bool → List Subscription → Bool
unfolding text_eq mem_text
has_standing provider now stopped [] = false
has_standing provider now stopped (s ∷ more) =
    text_eq s.provider provider && stands now stopped s || has_standing provider now stopped more

unfoldable pub has_renewing : Text → List StoredPurchase → Bool
unfolding text_eq
has_renewing provider [] = false
has_renewing provider (p ∷ more) =
    text_eq p.provider provider && p.auto_renews || has_renewing provider more

-- The query behind `conflict`.
unfoldable pub has_conflict : Text → ℕ → Billing → Bool
unfolding has_standing has_renewing has_renewal
has_conflict provider now db =
    has_standing provider now (has_renewal provider (codes "stopped") db.renewals) db.subscriptions
    || has_renewing provider db.purchases
    || has_renewal provider (codes "uncertain") db.renewals

abbrev pub result_of : Verified → Result
result_of v = record {
  state = v.state;
  active = v.active;
  pending = v.pending;
  auto_renews = v.auto_renews;
  needs_acknowledgement = v.needs_acknowledgement;
  expires_at = v.expires_at;
  refund_state = [];
}

abbrev pub refund_result : Text → Result
refund_result status = record {
  state = codes "REFUND";
  active = false;
  pending = false;
  auto_renews = false;
  needs_acknowledgement = false;
  expires_at = 0;
  refund_state = status;
}

-- `ON CONFLICT(token_hash) DO NOTHING`
unfoldable pub has_job : Text → List RefundJob → Bool
unfolding text_eq
has_job hash [] = false
has_job hash (j ∷ more) = text_eq j.hash hash || has_job hash more

abbrev pub add_job : RefundJob → List RefundJob → List RefundJob
add_job j jobs = if has_job j.hash jobs then jobs else j ∷ jobs

abbrev pub bind_account : Text → Billing → Billing
bind_account provider db = record db {
  accounts = if mem_text provider db.accounts then db.accounts else provider ∷ db.accounts;
}

-- The time of the next check: an hour when Google pushes changes, five minutes else or while it is
-- pending, a minute while it waits for its acknowledgement, and five minutes before its end at the
-- latest when it is active.
unfoldable pub next_check : Bool → ℕ → Verified → ℕ
next_check push now v =
    let fallback : ℕ =
      if v.needs_acknowledgement
      then 60
      else (if v.pending then 300 else (if push then 3600 else 300)) in
    if v.active && ltb (v.expires_at - 300) (now + fallback)
    then v.expires_at - 300
    else now + fallback

abbrev pub stored_check : Text → ℕ → Option ℕ
stored_check state t =
    if mem_text state (
      codes "SUBSCRIPTION_STATE_EXPIRED"
      ∷ codes "SUBSCRIPTION_STATE_PENDING_PURCHASE_CANCELED"
      ∷ [])
    then none
    else some t

-- The insert of a purchase, or its update when the owner is the same, with the rows it met.
unfoldable pub upsert_purchase : StoredPurchase → List StoredPurchase → List StoredPurchase × ℕ
unfolding text_eq
upsert_purchase p [] = (p ∷ [], 1)
upsert_purchase p (q ∷ more) =
    let (rest, n) = upsert_purchase p more in
    if text_eq q.hash p.hash
    then (if text_eq q.provider p.provider && text_eq q.subscription p.subscription
        then (
          record q {
            state = p.state;
            auto_renews = p.auto_renews;
            needs_acknowledgement = p.needs_acknowledgement;
            next_check_at = p.next_check_at;
          }
              ∷ more,
          1,
        )
        else (q ∷ more, 0))
    else (q ∷ rest, n)

-- The subscription of the receipt of an order.
unfoldable pub receipt_owner : Text → List SubscriptionReceipt → Option Text
unfolding text_eq
receipt_owner order [] = none
receipt_owner order (r ∷ more) =
    let rest = receipt_owner order more in
    if text_eq r.order order then some r.subscription else rest

unfoldable pub payment_owner : Text → List StorePayment → Option Text
unfolding text_eq
payment_owner transaction [] = none
payment_owner transaction (p ∷ more) =
    let rest = payment_owner transaction more in
    if text_eq p.transaction transaction then some p.subscription else rest

-- Enters a row unless its order is there, and refuses an order of another subscription.
abbrev pub enter : {A : Type 0} → Text → Option Text → A → List A → Outcome Text (List A)
enter subscription none row rows = ok (row ∷ rows)
enter subscription (some owner) row rows =
    if text_eq owner subscription then ok rows else err (codes "order ownership")

-- The receipt of an active purchase, and its payment unless it is a test.
unfoldable pub record_payment : (ℕ → Bool) → Text → Verified → Billing → Outcome Text Billing
unfolding receipt_owner payment_owner text_eq
record_payment fails subscription v db =
    let receipt : SubscriptionReceipt = record {
      order = v.order;
      subscription = subscription;
      amount_minor = v.amount_minor;
      test = v.test;
      referral_eligible = not v.needs_acknowledgement;
    } in
    let payment : StorePayment = record {
      transaction = v.order;
      subscription = subscription;
      amount_minor = v.amount_minor;
    } in
    if not v.active then ok db else (do
      reject_if (fails 10) (codes "order ownership")
      receipts ← enter subscription (receipt_owner v.order db.receipts) receipt db.receipts
      payments ←
          (if v.test
            then ok db.payments
            else reject_if (fails 11) (codes "receipt")
              >> enter subscription (payment_owner v.order db.payments) payment db.payments)
      ok (record db { receipts = receipts; payments = payments }))
