-- ===== src/Xp/Invariant.antt =====
-- The invariant of the withdrawals under a review.
use across_backend_api.Prelude.{
  ◌≡◌, ap, subst, ◌∙◌, inl, inr, false, some, List, [], ◌∷◌, arith, Bool-cases, All,
}
use across_backend_api.Prelude.Text.{Text, text_eq, text_eq_refl, text_eq_sound}
use across_backend_api.Prelude.Outcome.{ok}
use across_backend_api.Xp.Rows.{
  withdrawal_released, Transaction, XpDb, Faults, Withdrawal, WithdrawalStatus,
}
use across_backend_api.Xp.Tables.{has_event}
use across_backend_api.Xp.Withdrawals.{Parsers, Reply}
use across_backend_api.Xp.Review.{
  ReviewBody, is_rejected, find_withdrawal, set_review, refund, release_points, review_withdrawal,
}
use across_backend_api.Xp.Conservation.{
  IsUnreleased, IsOtherId, HasDistinctIds, IsValid, review_withdrawal-Reviewed, after_review-tables,
  find_withdrawal-IsUnreleased, set_review_absent,
}

set_review-IsOtherId :
    (i id : Text) (status : WithdrawalStatus) (reference note admin : Text) (ws : List Withdrawal)
    → All (IsOtherId i) ws
    → All (IsOtherId i) (set_review id status reference note admin ws)
unfolding set_review
set_review-IsOtherId i id status reference note admin [] a = tt
set_review-IsOtherId i id status reference note admin (w ∷ ws) a =
    (ground arith, set_review-IsOtherId i id status reference note admin ws a.1)

set_review-HasDistinctIds :
    (id : Text) (status : WithdrawalStatus) (reference note admin : Text) (ws : List Withdrawal)
    → HasDistinctIds ws
    → HasDistinctIds (set_review id status reference note admin ws)
unfolding set_review
set_review-HasDistinctIds id status reference note admin [] d = tt
set_review-HasDistinctIds id status reference note admin (w ∷ ws) d =
    let rest : HasDistinctIds (set_review id status reference note admin ws) =
      set_review-HasDistinctIds id status reference note admin ws d.1 in
    let others : All (IsOtherId w.id) (set_review id status reference note admin ws) =
      set_review-IsOtherId w.id id status reference note admin ws d.0 in
    elim (Bool-cases (text_eq w.id id)) [
      | inl hit ↦ rw hit (others, rest)
      | inr miss ↦ rw miss (others, rest)
    ]

-- The ledger behind a review has the same releases for all other rows.
abbrev SameElsewhere : Text → List Transaction → List Transaction → Type 0
SameElsewhere id ts ts' =
    (x : Withdrawal)
    → text_eq x.id id ≡ false
    → has_event x.user withdrawal_released x.id ts' ≡ has_event x.user withdrawal_released x.id ts

All-elsewhere :
    (id : Text) (ts ts' : List Transaction) (ws : List Withdrawal)
    → SameElsewhere id ts ts'
    → All (IsOtherId id) ws
    → All (IsUnreleased ts) ws
    → All (IsUnreleased ts') ws
All-elsewhere id ts ts' [] same o a = tt
All-elsewhere id ts ts' (w ∷ ws) same o a =
    (λ h. same w o.0 ∙ a.0 h, All-elsewhere id ts ts' ws same o.1 a.1)

set_review-IsUnreleased :
    (id : Text) (status : WithdrawalStatus) (reference note admin : Text)
    (ts ts' : List Transaction) (ws : List Withdrawal) {w : Withdrawal}
    → HasDistinctIds ws
    → find_withdrawal id ws ≡ some w
    → SameElsewhere id ts ts'
    → (is_rejected status ≡ false → has_event w.user withdrawal_released w.id ts' ≡ false)
    → All (IsUnreleased ts) ws
    → All (IsUnreleased ts') (set_review id status reference note admin ws)
unfolding set_review find_withdrawal
set_review-IsUnreleased id status reference note admin ts ts' [] d f same own a = tt
set_review-IsUnreleased id status reference note admin ts ts' (x ∷ ws) {w} d f same own a =
    elim (Bool-cases (text_eq x.id id)) [
      | inl hit ↦
          let others : All (IsOtherId id) ws =
            subst (λ i. All (IsOtherId i) ws) (text_eq_sound x.id id hit) d.0 in
          let e : x ≡ w = ground arith in
          rw (hit, set_review_absent id status reference note admin ws others)
            (
              λ h. ap (λ y. has_event y.user withdrawal_released y.id ts') e ∙ own h,
              All-elsewhere id ts ts' ws same others a.1,
            )
      | inr miss ↦ rw miss (
        λ h. same x miss ∙ a.0 h,
        set_review-IsUnreleased id status reference note admin ts ts' ws {w = w} d.1 (ground arith)
            same own a.1,
      )
    ]

refund-SameElsewhere :
    (target : WithdrawalStatus) (w : Withdrawal) (db : XpDb)
    → SameElsewhere w.id db.transactions (refund target w db).transactions
unfolding refund release_points has_event
refund-SameElsewhere target w db x other =
    ground (arith, text_eq_sound w.id x.id, text_eq_refl x.id)

refund_not_rejected :
    (target : WithdrawalStatus) (w : Withdrawal) (db : XpDb)
    → is_rejected target ≡ false
    → (refund target w db).transactions ≡ db.transactions
unfolding refund
refund_not_rejected target w db h = rw h

-- A review that succeeds keeps the identifiers distinct, and a release on record for rejected
-- withdrawals only.
pub review_withdrawal-IsValid :
    (p : Parsers) (fails : Faults) (role admin id : Text) (body : ReviewBody) (db db' : XpDb)
    (r : Reply)
    → IsValid db
    → review_withdrawal p fails role admin id body db ≡ ok (db', r)
    → IsValid db'
review_withdrawal-IsValid p fails role admin id body db db' r v ran =
    let (target, w, _, _, found, done) =
      review_withdrawal-Reviewed p fails role admin id body db db' r ran in
    elim done [
      | inl (e, _) ↦ rw e v
      | inr (reference, note, by, e, nr, _, _, _) ↦
          let (own, i) =
            find_withdrawal-IsUnreleased db.transactions id db.withdrawals {w = w} v.unreleased
              found in
          let (t, l) = after_review-tables target reference note by w db in
          rw e (record {
            distinct =
                rw l (
                  set_review-HasDistinctIds w.id target reference note by db.withdrawals
                    v.distinct);
            unreleased =
                rw (l, t)
                  (set_review-IsUnreleased w.id target reference note by db.transactions
                    (refund target w db).transactions db.withdrawals {w = w} v.distinct (rw i found)
                    (refund-SameElsewhere target w db)
                    (λ h.
                      ap (has_event w.user withdrawal_released w.id)
                        (refund_not_rejected target w db h)
                      ∙ own nr)
                    v.unreleased);
          })
    ]
