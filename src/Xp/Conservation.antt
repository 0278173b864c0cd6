-- ===== src/Xp/Conservation.antt =====
-- The life of a withdrawal neither makes nor loses points: what a user's ledger says and what the
-- user's withdrawals hold add up to the same before and after a request and a review.
use across_backend_api.Prelude.{
  ℕ, ◌+◌, ◌≡◌, refl, sym, ap, subst, ◌∙◌, ◌≢◌, ◌↔◌, ◌⊎◌, inl, inr, true, false, not, ◌&&◌, some,
  List, [], ◌∷◌, arith, if◌then◌else◌, Bool-cases, Option-cases, All,
}
use across_backend_api.Prelude.Text.{Text, text_eq, text_eq_sound, trim_space}
use across_backend_api.Prelude.Outcome.{ok}
use across_backend_api.Prelude.Int.{ℤ, pos, ◌+ℤ◌, int_laws}
use across_backend_api.Xp.Rows.{
  withdrawal_released, Transaction, XpDb, Faults, Notification, Withdrawal, WithdrawalStatus,
}
use across_backend_api.Xp.Tables.{has_event, insert_notification, sum_amounts}
use across_backend_api.Xp.Withdrawals.{Parsers, Reply}
use across_backend_api.Xp.Review.{
  ReviewBody, is_rejected, is_paid, is_processing, status_eq, find_withdrawal, set_review,
  release_points, refund, after_review, review_notification, review_row, review_withdrawal,
  chosen_status, validate_review,
}

-- The points in a user's withdrawals that were not rejected: reserved, or paid out.
abbrev pub points_held : Text → List Withdrawal → ℕ
points_held user [] = 0
points_held user (w ∷ ws) =
    let rest = points_held user ws in
    if text_eq w.user user && not (is_rejected w.status) then w.points + rest else rest

-- The user's ledger and the user's withdrawals together.
abbrev pub total_points : Text → XpDb → ℤ
total_points user db = sum_amounts user db.transactions +ℤ pos (points_held user db.withdrawals)

-- No release is on record for a withdrawal that was not rejected.
abbrev pub IsUnreleased : List Transaction → Withdrawal → Type 0
IsUnreleased ts w =
    is_rejected w.status ≡ false → has_event w.user withdrawal_released w.id ts ≡ false

abbrev pub IsOtherId : Text → Withdrawal → Type 0
IsOtherId id w = text_eq w.id id ≡ false

abbrev pub HasDistinctIds : List Withdrawal → Type 0
HasDistinctIds [] = Unit
HasDistinctIds (w ∷ ws) = All (IsOtherId w.id) ws × HasDistinctIds ws

pub record IsValid (db : XpDb) : Type 0 where
  pub distinct : HasDistinctIds db.withdrawals
  pub unreleased : All (IsUnreleased db.transactions) db.withdrawals

pub set_review_absent :
    (id : Text) (status : WithdrawalStatus) (reference note admin : Text) (ws : List Withdrawal)
    → All (IsOtherId id) ws
    → set_review id status reference note admin ws ≡ ws
unfolding set_review
set_review_absent id status reference note admin [] a = refl
set_review_absent id status reference note admin (w ∷ ws) a =
    ground (arith, set_review_absent id status reference note admin ws)

-- The share of one withdrawal in the points that a user's withdrawals hold.
abbrev share : Text → Withdrawal → WithdrawalStatus → ℕ
share user w status = if text_eq w.user user && not (is_rejected status) then w.points else 0

points_held-set_review :
    (user id : Text) (status : WithdrawalStatus) (reference note admin : Text)
    (ws : List Withdrawal) {w : Withdrawal}
    → HasDistinctIds ws
    → find_withdrawal id ws ≡ some w
    → points_held user (set_review id status reference note admin ws) + share user w w.status
      ≡ points_held user ws + share user w status
unfolding set_review find_withdrawal
points_held-set_review user id status reference note admin [] d f = cc
points_held-set_review user id status reference note admin (x ∷ ws) {w} d f =
    elim (Bool-cases (text_eq x.id id)) [
      | inl hit ↦
          let others : All (IsOtherId id) ws =
            subst (λ i. All (IsOtherId i) ws) (text_eq_sound x.id id hit) d.0 in
          ground (arith, set_review_absent id status reference note admin ws others)
      | inr miss ↦
          ground (arith, points_held-set_review user id status reference note admin ws {w = w} d.1)
    ]

pub find_withdrawal-IsUnreleased :
    (ts : List Transaction) (id : Text) (ws : List Withdrawal) {w : Withdrawal}
    → All (IsUnreleased ts) ws
    → find_withdrawal id ws ≡ some w
    → IsUnreleased ts w × (w.id ≡ id)
unfolding find_withdrawal
find_withdrawal-IsUnreleased ts id [] a f = cc
find_withdrawal-IsUnreleased ts id (x ∷ ws) {w} a f = elim (Bool-cases (text_eq x.id id)) [
  | inl hit ↦
      let e : x ≡ w = ground arith in
      (subst (IsUnreleased ts) e a.0, ap (λ y. y.id) (sym e) ∙ text_eq_sound x.id id hit)
  | inr miss ↦ find_withdrawal-IsUnreleased ts id ws {w = w} a.1 (ground arith)
]

insert_notification-tables :
    (n : Notification) (db : XpDb)
    → ((insert_notification n db).transactions ≡ db.transactions)
      × ((insert_notification n db).withdrawals ≡ db.withdrawals)
unfolding insert_notification
insert_notification-tables n db = ground arith

release_points-withdrawals :
    (w : Withdrawal) (db : XpDb) → (release_points w db).withdrawals ≡ db.withdrawals
unfolding release_points
release_points-withdrawals w db = ground arith

refund-withdrawals :
    (target : WithdrawalStatus) (w : Withdrawal) (db : XpDb)
    → (refund target w db).withdrawals ≡ db.withdrawals
unfolding refund
refund-withdrawals target w db = ground (arith, release_points-withdrawals w db)

pub after_review-tables :
    (target : WithdrawalStatus) (reference note admin : Text) (w : Withdrawal) (db : XpDb)
    → let db' = after_review target reference note admin w db in
      (db'.transactions ≡ (refund target w db).transactions)
      × (db'.withdrawals ≡ set_review w.id target reference note admin db.withdrawals)
unfolding after_review
after_review-tables target reference note admin w db =
    let refunded : XpDb = refund target w db in
    let (t, l) = insert_notification-tables (review_notification target w) (record refunded {
      withdrawals = set_review w.id target reference note admin refunded.withdrawals;
    }) in
    (t, l ∙ ap (set_review w.id target reference note admin) (refund-withdrawals target w db))

-- What a review of the row `w` leaves behind: what was there, or the row's new status.
abbrev pub Reviewed : WithdrawalStatus → Withdrawal → XpDb → XpDb → Type 0
Reviewed target w db db' =
    ((db' ≡ db) × (w.status ≡ target))
    ⊎ ((reference : Text) × (note : Text) × (admin : Text) × (db'
          ≡ after_review target reference note admin w db)
        × (is_rejected w.status ≡ false)
        × (is_paid w.status ≡ false)
        × (is_paid target ≡ true → is_processing w.status ≡ true)
        × (w.status ≢ target))

status_eq_sound : (a b : WithdrawalStatus) → (status_eq a b ≡ true) ↔ (a ≡ b)
status_eq_sound a b = ground arith

review_row-Reviewed :
    (p : Parsers) (fails : Faults) (admin : Text) (target : WithdrawalStatus)
    (reference note : Text) (w : Withdrawal) (db db' : XpDb) (r : Reply)
    → review_row p fails admin target reference note w db ≡ ok (db', r)
    → Reviewed target w db db'
unfolding review_row
review_row-Reviewed p fails admin target reference note w db db' r ran =
    elim (Bool-cases (status_eq w.status target)) [
      | inl same ↦ inl (ground arith, (status_eq_sound w.status target).0 same)
      | inr differs ↦ inr (
        reference,
        note,
        admin,
        ground arith,
        ground arith,
        ground arith,
        λ h. ground arith,
        λ e. ground (arith, (status_eq_sound w.status target).1 e),
      )
    ]

refund-sum_amounts :
    (target : WithdrawalStatus) (w : Withdrawal) (db : XpDb) (user : Text)
    → has_event w.user withdrawal_released w.id db.transactions ≡ false
    → sum_amounts user (refund target w db).transactions ≡ (
        if is_rejected target && text_eq w.user user
        then pos w.points +ℤ sum_amounts user db.transactions
        else sum_amounts user db.transactions)
unfolding refund release_points sum_amounts
refund-sum_amounts target w db user new = ground arith

total_points-after_review :
    (target : WithdrawalStatus) (reference note admin : Text) (w : Withdrawal) (db : XpDb)
    (user : Text)
    → IsValid db
    → find_withdrawal w.id db.withdrawals ≡ some w
    → is_rejected w.status ≡ false
    → total_points user (after_review target reference note admin w db) ≡ total_points user db
total_points-after_review target reference note admin w db user v f nr =
    let (t, l) = after_review-tables target reference note admin w db in
    let fresh : has_event w.user withdrawal_released w.id db.transactions ≡ false =
      (find_withdrawal-IsUnreleased db.transactions w.id db.withdrawals {w = w} v.unreleased f).0
        nr in
    rw (t, l)
      (grind (
        int_laws,
        refund-sum_amounts target w db user fresh,
        points_held-set_review user w.id target reference note admin db.withdrawals {w = w}
            v.distinct f,
      ))

-- The committed row of a review, by its identifier.
pub review_withdrawal-Reviewed :
    (p : Parsers) (fails : Faults) (role admin id : Text) (body : ReviewBody) (db db' : XpDb)
    (r : Reply)
    → review_withdrawal p fails role admin id body db ≡ ok (db', r)
    → (target : WithdrawalStatus) × (w : Withdrawal) × (chosen_status body.status ≡ some target)
      × (validate_review p role id body ≡ ok tt)
      × (find_withdrawal id db.withdrawals ≡ some w)
      × Reviewed target w db db'
unfolding review_withdrawal
review_withdrawal-Reviewed p fails role admin id body db db' r ran =
    elim (Option-cases (chosen_status body.status)) [
      | inl bad ↦ absurd (ground arith)
      | inr (target, chosen) ↦ elim (Option-cases (find_withdrawal id db.withdrawals)) [
        | inl missing ↦ absurd (ground arith)
        | inr (w, found) ↦ (
          target,
          w,
          chosen,
          ground arith,
          found,
          review_row-Reviewed p fails admin target (trim_space body.payout_reference)
              (trim_space body.note) w db db' r (ground arith),
        )
      ]
    ]

module _ (p : Parsers) (fails : Faults) (role admin id : Text) (body : ReviewBody) (db db' : XpDb)
    (r : Reply) (v : IsValid db)
    (ran : review_withdrawal p fails role admin id body db ≡ ok (db', r)) where
  -- On valid tables, a review that succeeds keeps, for every user, the sum of the ledger and the points that the
  -- user's withdrawals hold.
  pub total_points-review_withdrawal : (user : Text) → total_points user db' ≡ total_points user db
  total_points-review_withdrawal user =
      let (target, w, _, _, found, done) =
        review_withdrawal-Reviewed p fails role admin id body db db' r ran in
      elim done [
        | inl (e, _) ↦ rw e
        | inr (reference, note, by, e, nr, _, _, _) ↦
            let (_, i) =
              find_withdrawal-IsUnreleased db.transactions id db.withdrawals {w = w} v.unreleased
                found in
            rw e (total_points-after_review target reference note by w db user v (rw i found) nr)
      ]
