-- ===== src/Payments/Tests.antt =====
-- The payment ledger and the webhooks on small tables.
use across_backend_api.Prelude.{
  Bool, ◌⊎◌, ◌≡◌, refl, ◌≢◌, inl, true, false, none, some, List, [], ◌∷◌, All,
}
use across_backend_api.Prelude.Text.{Text, codes, text_eq, to_lower, trim_space, mem_text}
use across_backend_api.Prelude.Outcome.{Outcome, ok, err}
use across_backend_api.Payments.Attempts.{
  Attempt, order, select_payment_methods, settle_attempts, settle_payment_ledger, count_transaction,
}
use across_backend_api.Payments.Attempts.Laws.{
  settle_payment_ledger_again, settle_payment_ledger_other,
}
use across_backend_api.Payments.Webhooks.{
  Receipt, processed, failed, Delivery, begin, finish, deliver_all, is_done, SparesDone,
  begin_payment_webhook, begin_payment_webhook-done,
}
use across_backend_api.Prelude.Int.{ℤ, pos, ◌≤ℤ◌}
use across_backend_api.Prelude.Money.{kobo, minus_inf}
use across_backend_api.Xp.Rows.{OrderStatus}
use across_backend_api.Payments.Tables.{PayableOrder, Shop}
use across_backend_api.Payments.Orders.{Payment, find_payable, settle_order_payment}
use across_backend_api.Payments.Once.{
  no_faults, settle_order_payment-again, settle_order_payment-fits,
}
use across_backend_api.Payments.References.{
  new_payment_reference, parse_order_id, parse_order_id-new_payment_reference,
}

abbrev offered : List Text
offered = codes " Card" ∷ [] ∷ codes "mpesa" ∷ []

selected : select_payment_methods offered (codes "CARD") ≡ some (codes "card" ∷ [])
unfolding select_payment_methods to_lower mem_text
selected = refl

abbrev attempt : Attempt
attempt = record {
  provider = codes "flutterwave";
  purpose = order;
  reference = codes "tx";
  transaction = none;
  succeeded = false;
  provider_status = [];
  paid_at = none;
  failure = [];
}

abbrev paid_attempt : Attempt
paid_attempt = record attempt {
  transaction = some (codes "7");
  succeeded = true;
  provider_status = codes "successful";
  paid_at = some 3;
}

settled :
    settle_payment_ledger false 3
      (codes "flutterwave")
      (codes "tx")
      (codes "7")
      (codes "successful")
      (attempt ∷ [])
    ≡ ok (paid_attempt ∷ [])
unfolding settle_payment_ledger settle_attempts count_transaction text_eq
settled = refl

settle_payment_ledger_again_example :
    settle_payment_ledger false 9
      (codes "flutterwave")
      (codes "tx")
      (codes "7")
      (codes "successful")
      (paid_attempt ∷ [])
    ≡ ok (paid_attempt ∷ [])
settle_payment_ledger_again_example =
    settle_payment_ledger_again false 3 9 (codes "flutterwave") (codes "tx") (codes "7")
      (codes "successful") (attempt ∷ []) (paid_attempt ∷ []) settled

sevens_differ : text_eq (codes "7") (codes "8") ≡ false
unfolding text_eq
sevens_differ = refl

settle_payment_ledger_other_example :
    settle_payment_ledger false 9
      (codes "flutterwave")
      (codes "tx")
      (codes "8")
      (codes "successful")
      (paid_attempt ∷ [])
    ≢ ok (paid_attempt ∷ [])
settle_payment_ledger_other_example =
    settle_payment_ledger_other false false 3 9 (codes "flutterwave") (codes "tx") (codes "7")
      (codes "8") (codes "successful") (codes "successful") (attempt ∷ []) (paid_attempt ∷ [])
      (paid_attempt ∷ []) refl sevens_differ (tt, tt) settled

abbrev receipt : Receipt
receipt = record {
  provider = codes "flutterwave";
  event_key = codes "k";
  status = processed;
  attempt_count = 1;
  last_error = [];
}

abbrev later_deliveries : List Delivery
later_deliveries =
    begin false (codes "flutterwave") (codes "k")
    ∷ begin false (codes "flutterwave") (codes "l")
    ∷ finish false (codes "flutterwave") (codes "l") failed []
    ∷ []

receipt_done : is_done (codes "flutterwave") (codes "k") (receipt ∷ []) ≡ true
unfolding text_eq
receipt_done = refl

deliveries_spare : All (SparesDone (codes "flutterwave") (codes "k")) later_deliveries
unfolding text_eq
deliveries_spare = (tt, (tt, (inl refl, tt)))

begin_payment_webhook-done_example :
    (rs' : List Receipt) × (begin_payment_webhook false
        (codes "flutterwave")
        (codes "k")
        (deliver_all later_deliveries (receipt ∷ []))
      ≡ ok (rs', true))
begin_payment_webhook-done_example =
    begin_payment_webhook-done (codes "flutterwave") (codes "k") later_deliveries (receipt ∷ [])
      receipt_done deliveries_spare

abbrev taken : {E A : Type 0} → A → Outcome E A → A
taken d (ok a) = a
taken d (err e) = d

-- A pending order of 2500 kobo and its payment.
abbrev pending_order : PayableOrder
pending_order = record {
  id = codes "o1";
  currency = codes "NGN";
  total = 2500;
  platform_fee = 100;
  status = codes "Pending";
  tx_ref = [];
  transaction = [];
  package_label = [];
  paid_at = none;
  fulfillment_mode = codes "merchant_local";
  provider = some (codes "p1");
}

abbrev payment : Payment
payment = record {
  provider = codes "flutterwave";
  tx_ref = codes "tx";
  transaction = codes "7";
  paid = kobo (pos 2500);
  currency = codes " ngn";
}

abbrev shop : Shop
shop = record {
  orders = pending_order ∷ [];
  items = record { order = codes "o1"; product = codes "g"; quantity = 2 } ∷ [];
  products = record { id = codes "g"; sold_count = 5 } ∷ [];
  attempts = attempt ∷ [];
  earnings = [];
  subaccounts = (codes "flutterwave", codes "tx", codes "sub") ∷ [];
  jobs = [];
  xp = record {
    transactions = [];
    daily = [];
    redemptions = [];
    withdrawals = [];
    notifications = [];
    orders =
        record {
          id = codes "o1";
          user = codes "u1";
          status = OrderStatus.pending;
          currency = codes "NGN";
          platform_fee = 100;
          xp_discount = 0;
        }
        ∷ [];
    payments = [];
  };
}

abbrev paid_shop : Shop
paid_shop = taken shop (settle_order_payment no_faults no_faults 9 (codes "o1") payment shop)

order_settled : settle_order_payment no_faults no_faults 9 (codes "o1") payment shop ≡ ok paid_shop
unfolding settle_order_payment
order_settled = refl

sold_twice : paid_shop.products ≡ record { id = codes "g"; sold_count = 7 } ∷ []
unfolding settle_order_payment
sold_twice = refl

settle_order_payment-again_example :
    settle_order_payment no_faults no_faults 30 (codes "o1") payment paid_shop ≡ ok paid_shop
settle_order_payment-again_example =
    settle_order_payment-again no_faults no_faults 9 30 (codes "o1") payment shop paid_shop
      order_settled

settle_order_payment-fits_example :
    (o : PayableOrder) × (find_payable (codes "o1") shop.orders ≡ some o)
    × (to_lower o.currency ≡ to_lower (trim_space payment.currency))
    × ((z : ℤ) → payment.paid ≡ kobo z → pos o.total ≤ℤ z)
    × (payment.paid ≢ minus_inf)
    × ((o.status ≡ codes "Pending")
        ⊎ ((o.tx_ref ≡ payment.tx_ref)
            × ((o.status ≡ codes "Paid")
                ⊎ ((o.status ≡ codes "Shipped")
                    ⊎ ((o.status ≡ codes "Delivered") ⊎ (o.status ≡ codes "Completed"))))))
settle_order_payment-fits_example =
    settle_order_payment-fits no_faults no_faults 9 (codes "o1") payment shop paid_shop
      order_settled

abbrev uuid : Text
uuid = codes "01234567-89ab-cdef-0123-456789abcdef"

-- A parser that knows one UUID.
abbrev is_uuid : Text → Bool
is_uuid t = text_eq t uuid

uuid_known : is_uuid uuid ≡ true
unfolding text_eq
uuid_known = refl

parse_order_id-new_payment_reference_example :
    parse_order_id is_uuid (new_payment_reference uuid (codes "drawn")) ≡ ok uuid
parse_order_id-new_payment_reference_example =
    parse_order_id-new_payment_reference is_uuid uuid (codes "drawn") refl uuid_known
