-- ===== src/Xp/Redemptions/Laws.antt =====
-- What the reservations do to the points that a user can spend.
use across_backend_api.Prelude.{
  ℕ, ◌+◌, ◌*◌, ◌≤◌, ◌≡◌, refl, ap, subst, ◌∙◌, ◌≢◌, ◌⊎◌, inl, inr, Bool, false, ◌&&◌, none, some,
  List, [], ◌∷◌, ◌++◌, arith, ◌==◌, if◌then◌else◌, ==_iff, Bool-cases, Option-cases, All,
}
use across_backend_api.Prelude.Text.{Text, codes, text_eq, text_eq_sound}
use across_backend_api.Prelude.Outcome.{ok, err}
use across_backend_api.Prelude.Int.{pos, int_laws}
use across_backend_api.Prelude.Money.{kobo}
use across_backend_api.Xp.Rows.{
  service_fee_redemption, XpDb, Faults, database, Redemption, RedemptionStatus, consumed,
}
use across_backend_api.Xp.Tables.{has_event, is_reserved, sum_reserved, sum_amounts, available_xp}
use across_backend_api.Xp.Opened.{spendable, negate_parts}
use across_backend_api.Xp.Redemptions.{
  xp_discount, find_order_by_id, discount_of, close_reservation, is_of_order, redemption_debit,
  consume_xp,
}

-- A quote takes no more points than there are, and no more naira than the fee has.
pub xp_discount_bounds :
    (points fee : ℕ) (currency : Text)
    → (xp_discount (pos points) (kobo (pos fee)) currency ≤ points)
      × (100 * xp_discount (pos points) (kobo (pos fee)) currency ≤ fee)
unfolding xp_discount
xp_discount_bounds points fee currency = (ground arith, ground arith)

-- Closing a reservation takes its points from what its user has reserved.
sum_reserved-close_reservation :
    (wanted : Redemption → Bool) (status : RedemptionStatus) (rs : List Redemption) (user : Text)
    {r : Redemption}
    → is_reserved status ≡ false
    → (close_reservation wanted status rs).1 ≡ some r
    → sum_reserved user rs
      ≡ sum_reserved user (close_reservation wanted status rs).0
        + (if text_eq r.user user then r.points else 0)
unfolding close_reservation sum_reserved
sum_reserved-close_reservation wanted status [] user s e = cc
sum_reserved-close_reservation wanted status (x ∷ rs) user {r} s e =
    elim (Bool-cases (wanted x && is_reserved x.status)) [
      | inl hit ↦
          (let same : x ≡ r = ground arith in
            rw hit (
              ground (
                arith,
                s,
                ap (λ (y : Redemption). y.user) same,
                ap (λ (y : Redemption). y.points) same,
              )))
      | inr miss ↦ rw miss (
          ground
            (arith, sum_reserved-close_reservation wanted status rs user {r = r} s (ground arith)))
    ]

-- No debit of the order is on record.
abbrev pub HasNoDebit : Text → XpDb → Type 0
HasNoDebit order db =
    (user : Text)
    → has_event user service_fee_redemption (codes "xp-order:" ++ order) db.transactions ≡ false

-- What a consumption that succeeds has done.
consume_xp-steps :
    (fails : Faults) (order : Text) (db db' : XpDb)
    → consume_xp fails order db ≡ ok db'
    → HasNoDebit order db
    → ((db' ≡ db) × (discount_of order db ≡ ok 0))
      ⊎ ((r : Redemption) × (n : ℕ) × (discount_of order db ≡ ok n)
          × ((n == 0) ≡ false)
          × ((close_reservation (is_of_order order) consumed db.redemptions).1 ≡ some r)
          × (db' ≡ record db {
            redemptions = (close_reservation (is_of_order order) consumed db.redemptions).0;
            transactions = redemption_debit order r ∷ db.transactions;
          }))
unfolding consume_xp
consume_xp-steps fails order db db' ran none_yet =
    elim (Option-cases (find_order_by_id order db.orders)) [
      | inl missing ↦ absurd (ground arith)
      | inr (o, found) ↦ elim (Bool-cases (o.xp_discount == 0)) [
        | inl free ↦ inl (ground arith, ground (arith, ==_iff o.xp_discount 0))
        | inr paying ↦
            elim (Option-cases (close_reservation (is_of_order order) consumed db.redemptions).1) [
              | inl gone ↦ absurd (ground arith)
              | inr (r, closed) ↦
                  inr (
                    r,
                    o.xp_discount,
                    ground arith,
                    paying,
                    closed,
                    ground (arith, none_yet r.user),
                  )
            ]
      ]
    ]

consumed-spendable :
    (order user : Text) (db : XpDb) (r : Redemption)
    → (close_reservation (is_of_order order) consumed db.redemptions).1 ≡ some r
    → spendable user (record db {
      redemptions = (close_reservation (is_of_order order) consumed db.redemptions).0;
      transactions = redemption_debit order r ∷ db.transactions;
    })
      ≡ spendable user db
unfolding available_xp sum_amounts
consumed-spendable order user db r closed = grind (
  int_laws,
  negate_parts r.points,
  sum_reserved-close_reservation (is_of_order order) consumed db.redemptions user {r = r} refl
      closed,
)

-- Paying an order with its reserved points leaves what every user can spend as it was, if no debit
-- of the order is on record: the points go from the reservation to the ledger.
pub consume_xp-spendable :
    (fails : Faults) (order : Text) (db db' : XpDb)
    → consume_xp fails order db ≡ ok db'
    → HasNoDebit order db
    → (user : Text) → spendable user db' ≡ spendable user db
consume_xp-spendable fails order db db' ran none_yet user =
    elim (consume_xp-steps fails order db db' ran none_yet) [
      | inl (same, _) ↦ rw same
      | inr (r, n, priced, costs, closed, done) ↦
          rw done (consumed-spendable order user db r closed)
    ]

-- The orders of the reservations, of which each has one: the table's primary key.
abbrev IsOtherOrder : Text → Redemption → Type 0
IsOtherOrder order r = text_eq r.order order ≡ false

abbrev pub HasDistinctOrders : List Redemption → Type 0
HasDistinctOrders [] = Unit
HasDistinctOrders (r ∷ rs) = All (IsOtherOrder r.order) rs × HasDistinctOrders rs

close_reservation_absent :
    (order : Text) (status : RedemptionStatus) (rs : List Redemption)
    → All (IsOtherOrder order) rs
    → (close_reservation (is_of_order order) status rs).1 ≡ none
unfolding close_reservation
close_reservation_absent order status [] a = refl
close_reservation_absent order status (r ∷ rs) a =
    rw a.0 (close_reservation_absent order status rs a.1)

close_reservation_twice :
    (order : Text) (rs : List Redemption) {r : Redemption}
    → HasDistinctOrders rs
    → (close_reservation (is_of_order order) consumed rs).1 ≡ some r
    → (close_reservation
        (is_of_order order)
        consumed
        (close_reservation (is_of_order order) consumed rs).0).1
      ≡ none
unfolding close_reservation
close_reservation_twice order [] d e = refl
close_reservation_twice order (x ∷ rs) {r} d e = elim (Bool-cases (text_eq x.order order)) [
  | inl hit ↦ elim (Bool-cases (is_reserved x.status)) [
    | inl held ↦
        let others : All (IsOtherOrder order) rs =
          subst (λ i. All (IsOtherOrder i) rs) (text_eq_sound x.order order hit) d.0 in
        rw (hit, held) (ground (arith, close_reservation_absent order consumed rs others))
    | inr free ↦
        rw (hit, free) (ground (arith, close_reservation_twice order rs {r = r} d.1 (ground arith)))
  ]
  | inr miss ↦ rw miss (ground (arith, close_reservation_twice order rs {r = r} d.1 (ground arith)))
]

second_consumption :
    (fails : Faults) (order : Text) (db : XpDb) (n : ℕ) (r : Redemption)
    → discount_of order db ≡ ok n
    → (n == 0) ≡ false
    → (close_reservation
        (is_of_order order)
        consumed
        (close_reservation (is_of_order order) consumed db.redemptions).0).1
      ≡ none
    → consume_xp fails order (record db {
      redemptions = (close_reservation (is_of_order order) consumed db.redemptions).0;
      transactions = redemption_debit order r ∷ db.transactions;
    })
      ≡ err database
unfolding consume_xp
second_consumption fails order db n r priced costs gone = elim (Bool-cases (fails 0)) [
  | inl broken ↦ rw broken refl
  | inr first ↦ elim (Bool-cases (fails 1)) [
    | inl broken ↦ rw (first, priced, costs, broken) refl
    | inr fine ↦ rw (first, priced, costs, fine, gone) refl
  ]
]

-- The points of a discounted order are taken once: where no debit of the order is on record and an
-- order has one reservation at most, a second payment with them is refused after a first one.
pub consume_xp_once :
    (fails fails' : Faults) (order : Text) (db db' : XpDb)
    → consume_xp fails order db ≡ ok db'
    → HasNoDebit order db
    → HasDistinctOrders db.redemptions
    → discount_of order db ≢ ok 0
    → consume_xp fails' order db' ≡ err database
consume_xp_once fails fails' order db db' ran none_yet distinct discounted =
    elim (consume_xp-steps fails order db db' ran none_yet) [
      | inl (_, free) ↦ absurd (discounted free)
      | inr (r, n, priced, costs, closed, done) ↦
          ap (consume_xp fails' order) done
          ∙ (second_consumption fails' order db n r priced costs
              (close_reservation_twice order db.redemptions {r = r} distinct closed))
    ]
