-- ===== src/Payments/Orders.antt =====
-- The settlement of an order's payment: `settleOrderPayment` and `shortOrderLabel` of
-- internal/controllers/payment_controller.go. Amounts are in kobo: a payment that is less than the
-- order by a thousandth at most is one that is not less. `fails` numbers the statements in their
-- order; those of `consumeXP` have their own.
use across_backend_api.Prelude.{
  ℕ, suc, ◌+◌, ◌-◌, Bool, true, false, not, ◌&&◌, ◌||◌, Option, none, some, List, [], ◌∷◌, ◌++◌,
  map, leb, ◌==◌, if◌then◌else◌, take,
}
use across_backend_api.Prelude.Text.{
  Text, codes, text_eq, is_empty, to_lower, to_upper, trim_space, mem_text,
}
use across_backend_api.Prelude.Outcome.{Outcome, ok, err, ◌>>=◌, ◌>>◌, reject_if}
use across_backend_api.Prelude.Int.{pos, negsuc, ltb_ℤ}
use across_backend_api.Prelude.Money.{Float64, nan, inf, minus_inf, kobo}
use across_backend_api.Xp.Rows.{XpDb, Order, OrderStatus, Faults, Failure}
use across_backend_api.Xp.Redemptions.{consume_xp}
use across_backend_api.Payments.Attempts.{settle_payment_ledger}
use across_backend_api.Payments.Tables.{PayableOrder, OrderItem, Product, Earning, Shop}

unfoldable pub find_payable : Text → List PayableOrder → Option PayableOrder
unfolding text_eq
find_payable id [] = none
find_payable id (o ∷ more) =
    let rest = find_payable id more in if text_eq o.id id then some o else rest

-- Whether a paid amount is less than an order. NaN and infinity are not, as in the code, which
-- compares floats: an amount that is no number passes this test.
unfoldable pub is_short : Float64 → ℕ → Bool
is_short nan total = false
is_short inf total = false
is_short minus_inf total = true
is_short (kobo z) total = ltb_ℤ z (pos total)

-- The amount or the currency does not match.
unfoldable pub mismatches : Float64 → Text → PayableOrder → Bool
unfolding is_short text_eq to_lower trim_space
mismatches paid currency o =
    not (text_eq (to_lower o.currency) (to_lower (trim_space currency))) || is_short paid o.total

-- `shortOrderLabel`
unfoldable pub without_dashes : Text → Text
without_dashes [] = []
without_dashes (c ∷ s) = let rest = without_dashes s in if c == b'-' then rest else c ∷ rest

unfoldable pub short_order_label : Text → Text
unfolding without_dashes to_upper
short_order_label id = take 8 (without_dashes (to_upper id))

abbrev or_label : Text → Text → Text
or_label old new = if is_empty old then new else old

abbrev earliest : Option ℕ → ℕ → Option ℕ
earliest (some t) now = some t
earliest none now = some now

abbrev pub pay_order : ℕ → Text → Text → PayableOrder → PayableOrder
pay_order now tx_ref transaction o = record o {
  status = codes "Paid";
  package_label = or_label o.package_label (codes "SELLER-" ++ short_order_label o.id);
  tx_ref = tx_ref;
  transaction = transaction;
  paid_at = earliest o.paid_at now;
}

-- The update of the order while it is pending, with the rows it met.
unfoldable pub pay_pending : ℕ → Text → Text → Text → List PayableOrder → List PayableOrder × ℕ
unfolding text_eq short_order_label
pay_pending now id tx_ref transaction [] = ([], 0)
pay_pending now id tx_ref transaction (o ∷ more) =
    let (rest, n) = pay_pending now id tx_ref transaction more in
    if text_eq o.id id && text_eq o.status (codes "Pending")
    then (pay_order now tx_ref transaction o ∷ rest, suc n)
    else (o ∷ rest, n)

-- How many of a product an order has.
unfoldable pub sold_in : Text → Text → List OrderItem → ℕ
unfolding text_eq
sold_in order product [] = 0
sold_in order product (i ∷ more) =
    let rest = sold_in order product more in
    if text_eq i.order order && text_eq i.product product then i.quantity + rest else rest

abbrev count_product : Text → List OrderItem → Product → Product
count_product order items p = record p { sold_count = p.sold_count + sold_in order p.id items }

unfoldable pub count_sold : Text → List OrderItem → List Product → List Product
unfolding sold_in
count_sold order items = map (count_product order items)

unfoldable pub has_earning : Text → List Earning → Bool
unfolding text_eq
has_earning key [] = false
has_earning key (e ∷ more) = text_eq e.event_key key || has_earning key more

abbrev pub enter_earning : Earning → List Earning → List Earning
enter_earning e rows = if has_earning e.event_key rows then rows else e ∷ rows

-- The subaccounts of a payment, of which each new one gets a job.
unfoldable pub add_jobs : Text → Text → List (Text × Text × Text) → List Text → List Text
unfolding text_eq mem_text
add_jobs provider reference [] jobs = jobs
add_jobs provider reference ((p, r, s) ∷ more) jobs =
    let next : List Text =
      if text_eq p provider && text_eq r reference && not (is_empty s) && not (mem_text s jobs)
      then s ∷ jobs
      else jobs in
    add_jobs provider reference more next

unfoldable pub earning_of : PayableOrder → Text → Earning
earning_of o provider = record {
  event_key = codes "order-paid:" ++ o.id;
  provider = provider;
  order = o.id;
  currency = o.currency;
  gross = o.total;
  fee = o.platform_fee;
  net =
      if leb o.platform_fee o.total
      then pos (o.total - o.platform_fee)
      else negsuc (o.platform_fee - o.total - 1);
}

-- The orders of the XP tables are the same orders.
unfoldable pub pay_xp_order : Text → List Order → List Order
unfolding text_eq
pay_xp_order id [] = []
pay_xp_order id (o ∷ more) =
    (if text_eq o.id id then record o { status = OrderStatus.paid } else o) ∷ pay_xp_order id more

abbrev pub from_xp : Outcome Failure XpDb → Outcome Text XpDb
from_xp (ok db) = ok db
from_xp (err e) = err (codes "xp")

abbrev pub seller_of : PayableOrder → Option Text
seller_of o =
    if mem_text o.fulfillment_mode (codes "merchant_local" ∷ codes "merchant_cross_border" ∷ [])
    then o.provider
    else none

-- What a payment says: the gateway, the reference, the transaction, the amount and the currency.
pub record Payment : Type 0 where
  pub provider : Text
  pub tx_ref : Text
  pub transaction : Text
  pub paid : Float64
  pub currency : Text

abbrev pub seller_or_error : Option Text → Outcome Text Text
seller_or_error none = err (codes "order does not have seller-managed fulfilment")
seller_or_error (some s) = ok s

-- The payment of a pending order.
unfoldable pub pay_first : Faults → Faults → ℕ → Payment → PayableOrder → Shop → Outcome Text Shop
unfolding settle_payment_ledger mem_text pay_pending count_sold consume_xp earning_of has_earning
    add_jobs pay_xp_order
pay_first fails xp_fails now p o shop = do
  attempts ←
      settle_payment_ledger (fails 3) now p.provider p.tx_ref p.transaction (codes "successful")
        shop.attempts
  seller ← seller_or_error (seller_of o)
  let (rows, n) = pay_pending now o.id p.tx_ref p.transaction shop.orders
  reject_if (fails 4 || n == 0) (codes "order is not payable")
  reject_if (fails 5) (codes "database")
  xp ←
      from_xp
        (consume_xp xp_fails o.id (record shop.xp { orders = pay_xp_order o.id shop.xp.orders }))
  reject_if (fails 6) (codes "database")
  reject_if (fails 7) (codes "database")
  reject_if (fails 8) (codes "database")
  ok (record shop {
    orders = rows;
    products = count_sold o.id shop.items shop.products;
    attempts = attempts;
    earnings = enter_earning (earning_of o seller) shop.earnings;
    jobs = add_jobs p.provider p.tx_ref shop.subaccounts shop.jobs;
    xp = xp;
  })

abbrev pub paid_statuses : List Text
paid_statuses = codes "Paid" ∷ codes "Shipped" ∷ codes "Delivered" ∷ codes "Completed" ∷ []

-- The payment of an order that is not pending: the same one again is settled in the ledger.
unfoldable pub pay_again : Faults → ℕ → Payment → PayableOrder → Shop → Outcome Text Shop
unfolding text_eq mem_text settle_payment_ledger
pay_again fails now p o shop =
    if text_eq o.tx_ref p.tx_ref && mem_text o.status paid_statuses
    then (do
      attempts ←
          settle_payment_ledger (fails 3) now p.provider p.tx_ref p.transaction (codes "successful")
            shop.attempts
      reject_if (fails 8) (codes "database")
      ok (record shop { attempts = attempts }))
    else err (codes "order is not payable")

abbrev pub found_order : Option PayableOrder → Outcome Text PayableOrder
found_order none = err (codes "no order")
found_order (some o) = ok o

-- `settleOrderPayment`.
unfoldable pub settle_order_payment :
    Faults → Faults → ℕ → Text → Payment → Shop → Outcome Text Shop
unfolding find_payable mismatches pay_first pay_again text_eq
settle_order_payment fails xp_fails now id p shop = do
  reject_if (fails 0 || fails 1 || fails 2) (codes "database")
  o ← found_order (find_payable id shop.orders)
  reject_if (mismatches p.paid p.currency o)
      (codes "payment amount or currency does not match order")
  if text_eq o.status (codes "Pending")
      then pay_first fails xp_fails now p o shop
      else pay_again fails now p o shop
