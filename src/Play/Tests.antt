-- ===== src/Play/Tests.antt =====
-- A subscription of one provider, bought in the Play Store.
use across_backend_api.Prelude.{
  ◌⊎◌, ℕ, ◌≡◌, refl, Bool, true, false, Option, none, some, [], ◌∷◌, if◌then◌else◌,
}
use across_backend_api.Prelude.Text.{Text, codes, text_eq}
use across_backend_api.Prelude.Outcome.{Outcome, ok, err}
use across_backend_api.Prelude.Int.{pos}
use across_backend_api.Play.Money.{GoogleMoney}
use across_backend_api.Play.Receipts.{Expected, LineItem, Purchase, Verified, validate}
use across_backend_api.Play.Active.{Genuine, validate-Genuine}
use across_backend_api.Play.Orders.{Order, verify_order, IsPaid, verify_order-IsPaid}
use across_backend_api.Play.Tables.{StoredPurchase, Billing, Result}
use across_backend_api.Play.Purchases.{find_refund, find_purchase, has_conflict, refund_result}
use across_backend_api.Play.Process.{Call, process}
use across_backend_api.Play.Entries.{Books}
use across_backend_api.Play.Books.{process-Books}
use across_backend_api.Play.Ownership.{SameHoldings, process-conflict, process-foreign}

abbrev taken : {E A : Type 0} → A → Outcome E A → A
taken d (ok a) = a
taken d (err e) = d

abbrev price : GoogleMoney
price = record { currency = codes "NGN"; units = codes "5000"; nanos = pos 0 }

abbrev item : LineItem
item = record {
  product = codes "pro";
  expiry = codes "T90";
  order = codes "GPA.1";
  auto_renewing = some (true, price);
  prepaid = false;
  base_plan = codes "monthly";
  offer = [];
  free_trial = false;
  introductory = false;
}

abbrev receipt : Purchase
receipt = record {
  kind = codes "androidpublisher#subscriptionPurchaseV2";
  state = codes "SUBSCRIPTION_STATE_ACTIVE";
  acknowledgement = codes "ACKNOWLEDGEMENT_STATE_PENDING";
  test = false;
  account = codes "a1";
  items = item ∷ [];
}

abbrev expected : Expected
expected = record {
  product = codes "pro";
  base_plan = codes "monthly";
  account = codes "a1";
  allow_test = false;
  amount_minor = 500000;
  prepaid = false;
  verify_order = true;
}

-- A parser that knows one time.
abbrev parse : Text → Option ℕ
parse t = if text_eq t (codes "T90") then some 90 else none

abbrev view : Verified
view = record {
  product = codes "pro";
  base_plan = codes "monthly";
  order = codes "GPA.1";
  state = codes "SUBSCRIPTION_STATE_ACTIVE";
  expires_at = 90;
  active = true;
  pending = false;
  auto_renews = true;
  test = false;
  needs_acknowledgement = true;
  amount_minor = 500000;
}

receipt_good : validate parse receipt expected 20 ≡ ok view
unfolding validate
receipt_good = refl

validate-Genuine_example : Genuine parse receipt expected 20 view
validate-Genuine_example = validate-Genuine parse receipt expected 20 view receipt_good refl

abbrev order : Order
order = record {
  id = codes "GPA.1";
  token = codes "t";
  state = codes "PROCESSED";
  total = price;
  items =
      record {
        product = codes "pro";
        price = price;
        subscription = some (record {
          base = codes "monthly";
          offer = [];
          phase = codes "BASE";
          base_details = false;
        });
      }
      ∷ [];
}

order_good : verify_order (some order) (codes "t") view expected ≡ ok 500000
unfolding verify_order
order_good = refl

verify_order-IsPaid_example : IsPaid view expected 500000
verify_order-IsPaid_example =
    verify_order-IsPaid (some order) (codes "t") view expected 500000 order_good

abbrev call : Call
call = record {
  now = 20;
  push = false;
  well_formed = true;
  locked = true;
  provider = codes "p1";
  hash = codes "h1";
  product = codes "pro";
  base_plan = codes "monthly";
  plan = some (record {
    id = codes "plan";
    months = 1;
    amount_minor = 500000;
    email = codes "p1@x.io";
    eligible = true;
    enabled = true;
  });
  new_id = codes "s1";
  verified = ok view;
}

abbrev billing : Billing
billing = record {
  refunds = [];
  purchases = [];
  subscriptions = [];
  receipts = [];
  payments = [];
  renewals = [];
  accounts = [];
  intents = codes "p1" ∷ [];
}

abbrev no_faults : ℕ → Bool
no_faults k = false

abbrev bought : Billing × Result
bought = taken (billing, refund_result []) (process no_faults call billing)

purchase_processed : process no_faults call billing ≡ ok (bought.0, bought.1)
unfolding process
purchase_processed = refl

process-Books_example : Books bought.0
process-Books_example =
    process-Books no_faults call billing bought.0 bought.1 purchase_processed (tt, tt)

-- A second purchase of the provider.
abbrev second : Call
second = record call { hash = codes "h2"; new_id = codes "s2" }

abbrev refunded : Billing × Result
refunded = taken (billing, refund_result []) (process no_faults second bought.0)

second_new : find_purchase (codes "h2") bought.0.purchases ≡ none
unfolding process
second_new = refl

second_conflicts : has_conflict (codes "p1") 20 bought.0 ≡ true
unfolding process has_conflict
second_conflicts = refl

second_processed : process no_faults second bought.0 ≡ ok (refunded.0, refunded.1)
unfolding process
second_processed = refl

process-conflict_example : SameHoldings bought.0 refunded.0
process-conflict_example =
    process-conflict no_faults second bought.0 refunded.0 refunded.1 second_new second_conflicts
      second_processed

-- The purchase on record.
abbrev of_first : StoredPurchase
of_first = record {
  hash = codes "h1";
  provider = codes "p1";
  subscription = codes "s1";
  product = codes "pro";
  base_plan = codes "monthly";
  state = codes "SUBSCRIPTION_STATE_ACTIVE";
  auto_renews = true;
  test = false;
  needs_acknowledgement = false;
  next_check_at = none;
}

abbrev sold : Billing
sold = record billing { purchases = of_first ∷ [] }

sold_found : find_purchase (codes "h1") sold.purchases ≡ some of_first
unfolding find_purchase
sold_found = refl

-- The purchase, brought again by its provider.
abbrev renewed : Billing × Result
renewed = taken (billing, refund_result []) (process no_faults call sold)

sold_processed : process no_faults call sold ≡ ok (renewed.0, renewed.1)
unfolding process
sold_processed = refl

process-foreign_example :
    ((of_first.provider ≡ call.provider)
      × (of_first.product ≡ call.product)
      × (of_first.base_plan ≡ call.base_plan))
    ⊎ ((renewed.0 ≡ sold)
        × ((status : Text) × (find_refund call.hash call.provider sold.refunds ≡ some status)))
process-foreign_example =
    process-foreign no_faults call sold renewed.0 of_first renewed.1 sold_found sold_processed
