-- ===== src/Xp/Redemptions.antt =====
-- The XP that an order's quote reserves: `xpDiscount`, `validateXPReservation`, `consumeXP` and
-- `ReleaseXPQuote` of internal/controllers/xp_redemption.go. An order has one reservation at most.
pub mod Laws
use across_backend_api.Prelude.{
  ℕ, zero, suc, ◌+◌, ◌-◌, ◌*◌, ◌/◌, ◌%◌, ◌^◌, ◌≤◌, ◌<◌, min, max, ◌≡◌, refl, sym, ap, subst, ◌∙◌,
  ◌≢◌, ◌↔◌, ◌⊎◌, inl, inr, Bool, true, false, not, ◌&&◌, ◌||◌, Option, none, some, List, [], ◌∷◌,
  ◌++◌, map, arith, ltb, leb, ◌==◌, if◌then◌else◌, ==_iff, Bool-cases, Option-cases, if_branches,
  length, take, drop, filter_by, length-append, take-append-drop, length-filter_by-le, All,
  All-append, append_assoc, append-nil,
}
use across_backend_api.Prelude.Text.{
  Text, codes, text_eq, text_eq_refl, text_eq_sound, text_eq_iff, is_empty, lower_byte, upper_byte,
  to_lower, to_upper, is_space, trim_left, trim_right, trim_space, has_prefix, contains, mem_text,
}
use across_backend_api.Prelude.Outcome.{
  Outcome, ok, err, ◌>>=◌, ◌>>◌, reject_if, Outcome-cases, >>=-ok, reject_if-ok,
}
use across_backend_api.Prelude.Int.{
  ℤ, pos, negsuc, pos_part, neg_part, sub_ℕ, ◌+ℤ◌, ◌-ℤ◌, ◌*ℤ◌, ◌≤ℤ◌, ltb_ℤ, int_laws, +ℤ_parts,
  -ℤ_parts, eq_of_parts,
}
use across_backend_api.Prelude.Money.{Float64, nan, inf, minus_inf, kobo}
use across_backend_api.Xp.Rows.{
  Reason, service_fee_redemption, Transaction, XpDb, Failure, Faults, statement, http, database,
  Redemption, RedemptionStatus, reserved, consumed, released, Order, OrderStatus,
}
use across_backend_api.Xp.Tables.{has_event, conflicts, add_transaction, is_reserved}
use across_backend_api.Xp.Withdrawals.{negate}
use across_backend_api.Xp.Rewards.{find_order}

-- `xpDiscount`, whole naira of points against a fee in kobo.
unfoldable pub xp_discount : ℤ → Float64 → Text → ℕ
unfolding text_eq
xp_discount (pos points) (kobo (pos fee)) currency =
    if not (text_eq currency (codes "NGN")) || points == 0 || ltb fee 100
    then 0
    else if ltb points (fee / 100)
    then points
    else fee / 100
xp_discount _ _ _ = 0

unfoldable pub find_order_by_id : Text → List Order → Option Order
unfolding text_eq
find_order_by_id id [] = none
find_order_by_id id (o ∷ os) =
    let rest = find_order_by_id id os in if text_eq o.id id then some o else rest

-- The discount of an order; a query without a row is an error.
abbrev pub discount_of : Text → XpDb → Outcome Failure ℕ
discount_of order db = elim (find_order_by_id order db.orders) [
  | none ↦ err database
  | some o ↦ ok o.xp_discount
]

-- A reservation of the order that can be paid with: in time, or with a payment that was begun.
unfoldable pub has_reservation : Text → ℕ → List Text → List Redemption → Bool
unfolding text_eq mem_text
has_reservation order now payments [] = false
has_reservation order now payments (r ∷ rs) =
    text_eq r.order order
      && is_reserved r.status
      && (ltb now r.expires_at || mem_text r.order payments)
    || has_reservation order now payments rs

-- `validateXPReservation`
unfoldable pub validate_xp_reservation : Faults → ℕ → Text → XpDb → Outcome Failure (Unit {0})
unfolding find_order_by_id has_reservation
validate_xp_reservation fails now order db = do
  statement fails 0
  discount ← discount_of order db
  if discount == 0 then ok tt else (do
    statement fails 1
    reject_if (not (has_reservation order now db.payments db.redemptions)) (http 409))

-- The reserved row of an order, of any user or of one, and its new status.
unfoldable pub close_reservation :
    (Redemption → Bool) → RedemptionStatus → List Redemption → List Redemption × Option Redemption
close_reservation wanted status [] = ([], none)
close_reservation wanted status (r ∷ rs) =
    let (rest, closed) = close_reservation wanted status rs in
    if wanted r && is_reserved r.status
    then (record r { status = status } ∷ rs, some r)
    else (r ∷ rest, closed)

abbrev pub is_of_order : Text → Redemption → Bool
is_of_order order r = text_eq r.order order

abbrev pub is_of_buyer : Text → Text → Redemption → Bool
is_of_buyer order user r = text_eq r.order order && text_eq r.user user

abbrev pub redemption_debit : Text → Redemption → Transaction
redemption_debit order r = record {
  user = r.user;
  amount = negate r.points;
  reason = service_fee_redemption;
  reference = codes "xp-order:" ++ order;
}

-- `consumeXP`, inside a transaction of its caller.
unfoldable pub consume_xp : Faults → Text → XpDb → Outcome Failure XpDb
unfolding find_order_by_id close_reservation has_event text_eq
consume_xp fails order db = do
  statement fails 0
  discount ← discount_of order db
  if discount == 0 then ok db else (do
    statement fails 1
    let (rows, closed) = close_reservation (is_of_order order) consumed db.redemptions
    elim closed [
      | none ↦ err database
      | some r ↦ (do
        statement fails 2
        let spent : XpDb = record db { redemptions = rows }
        let t : Transaction = redemption_debit order r
        ok (if conflicts t spent then spent else add_transaction t spent))
    ])

abbrev is_pending : OrderStatus → Bool
is_pending OrderStatus.pending = true
is_pending _ = false

-- `ReleaseXPQuote`
unfoldable pub release_xp_quote : Faults → Text → Text → XpDb → Outcome Failure XpDb
unfolding find_order close_reservation mem_text text_eq
release_xp_quote fails order user db = do
  statement fails 0
  statement fails 1
  elim (find_order order user db.orders) [
    | none ↦ err (http 404)
    | some o ↦ (do
      reject_if (fails 2) (http 404)
      statement fails 3
      reject_if (mem_text order db.payments || not (is_pending o.status)) (http 409)
      statement fails 4
      statement fails 5
      ok (record db {
        redemptions = (close_reservation (is_of_buyer order user) released db.redemptions).0;
      }))
  ]
