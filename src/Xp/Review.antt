-- ===== src/Xp/Review.antt =====
-- `AdminReviewWithdrawal` of internal/controllers/xp_withdrawals.go: the review of a withdrawal by
-- an administrator. The moves between statuses are checked against the row that is locked.
-- UUIDs are texts: two spellings of one UUID, which PostgreSQL takes as equal, are two here.
use across_backend_api.Prelude.{
  Bool, true, false, not, ◌&&◌, ◌||◌, Option, none, some, List, [], ◌∷◌, ◌++◌, ltb, if◌then◌else◌,
  length,
}
use across_backend_api.Prelude.Text.{Text, codes, text_eq, is_empty, trim_space}
use across_backend_api.Prelude.Outcome.{Outcome, ok, err, ◌>>◌, reject_if}
use across_backend_api.Prelude.Int.{pos}
use across_backend_api.Xp.Rows.{
  withdrawal_released, Transaction, XpDb, Failure, http, database, Faults, statement, Notification,
  Withdrawal, WithdrawalStatus,
}
use across_backend_api.Xp.Tables.{conflicts, has_event, add_transaction, insert_notification}
use across_backend_api.Xp.Withdrawals.{Parsers, Reply, reviewed}

pub record ReviewBody : Type 0 where
  pub status : Text
  pub payout_reference : Text
  pub note : Text

abbrev pub status_text : WithdrawalStatus → Text
status_text WithdrawalStatus.pending = codes "pending"
status_text WithdrawalStatus.processing = codes "processing"
status_text WithdrawalStatus.paid = codes "paid"
status_text WithdrawalStatus.rejected = codes "rejected"

-- The three statuses that a review may choose.
unfoldable pub chosen_status : Text → Option WithdrawalStatus
unfolding text_eq
chosen_status s =
    if text_eq s (codes "processing")
    then some WithdrawalStatus.processing
    else if text_eq s (codes "paid")
    then some WithdrawalStatus.paid
    else if text_eq s (codes "rejected")
    then some WithdrawalStatus.rejected
    else none

abbrev pub is_processing : WithdrawalStatus → Bool
is_processing WithdrawalStatus.processing = true
is_processing _ = false

abbrev pub is_paid : WithdrawalStatus → Bool
is_paid WithdrawalStatus.paid = true
is_paid _ = false

abbrev pub is_rejected : WithdrawalStatus → Bool
is_rejected WithdrawalStatus.rejected = true
is_rejected _ = false

abbrev pub status_eq : WithdrawalStatus → WithdrawalStatus → Bool
status_eq WithdrawalStatus.pending b = not (is_processing b || is_paid b || is_rejected b)
status_eq WithdrawalStatus.processing b = is_processing b
status_eq WithdrawalStatus.paid b = is_paid b
status_eq WithdrawalStatus.rejected b = is_rejected b

unfoldable pub find_withdrawal : Text → List Withdrawal → Option Withdrawal
unfolding text_eq
find_withdrawal id [] = none
find_withdrawal id (w ∷ ws) =
    let rest = find_withdrawal id ws in if text_eq w.id id then some w else rest

-- `UPDATE xp_withdrawals SET status=$2,payout_reference=$3,admin_note=$4,reviewed_by=$5`
unfoldable pub set_review :
    Text → WithdrawalStatus → Text → Text → Text → List Withdrawal → List Withdrawal
unfolding text_eq
set_review id status reference note admin [] = []
set_review id status reference note admin (w ∷ ws) =
    (if text_eq w.id id
      then record w {
        status = status;
        payout_reference = reference;
        admin_note = note;
        reviewed_by = admin;
      }
      else w)
    ∷ set_review id status reference note admin ws

-- Another withdrawal was paid with this reference: the unique index on `payout_reference`.
unfoldable pub reference_taken : Text → Text → List Withdrawal → Bool
unfolding text_eq
reference_taken id reference [] = false
reference_taken id reference (w ∷ ws) =
    not (text_eq w.id id) && text_eq w.payout_reference reference || reference_taken id reference ws

abbrev pub super_admin : Text
super_admin = codes "super_admin"

-- What is checked before the database is asked.
unfoldable pub validate_review : Parsers → Text → Text → ReviewBody → Outcome Failure (Unit {0})
unfolding trim_space text_eq chosen_status
validate_review p role id body = do
  let reference : Text = trim_space body.payout_reference
  let note : Text = trim_space body.note
  reject_if (not (p.is_uuid id)) (http 400)
  elim (chosen_status body.status) [
    | none ↦ err (http 400)
    | some target ↦ (do
      reject_if
          (ltb 1000 (length note)
            || ltb 200 (length reference)
            || is_paid target && is_empty reference
            || is_rejected target && is_empty note)
          (http 400)
      reject_if (not (text_eq role super_admin || text_eq role (codes "finance_admin"))) (http 403)
      reject_if (is_paid target && not (text_eq role super_admin)) (http 403))
  ]

-- The points go back to the user once; the index makes a second release a no-op.
unfoldable pub release_points : Withdrawal → XpDb → XpDb
unfolding has_event
release_points w db =
    let t : Transaction = record {
      user = w.user;
      amount = pos w.points;
      reason = withdrawal_released;
      reference = w.id;
    } in
    if conflicts t db then db else add_transaction t db

-- A rejection gives the points back; other reviews move none.
unfoldable pub refund : WithdrawalStatus → Withdrawal → XpDb → XpDb
unfolding release_points
refund target w db = if is_rejected target then release_points w db else db

abbrev pub review_notification : WithdrawalStatus → Withdrawal → Notification
review_notification target w = record {
  user = w.user;
  order = [];
  kind = codes "xp_withdrawal";
  event_key = codes "withdrawal:" ++ w.id ++ codes ":" ++ status_text target;
}

-- The tables that a review commits.
unfoldable pub after_review : WithdrawalStatus → Text → Text → Text → Withdrawal → XpDb → XpDb
unfolding insert_notification set_review
after_review target reference note admin w db =
    let refunded = refund target w db in
    insert_notification (review_notification target w) (record refunded {
      withdrawals = set_review w.id target reference note admin refunded.withdrawals;
    })

-- The transaction on the locked row `w`, to the status `target`.
unfoldable pub review_row :
    Parsers
    → Faults
    → Text
    → WithdrawalStatus
    → Text
    → Text
    → Withdrawal
    → XpDb
    → Outcome Failure (XpDb × Reply)
review_row p fails admin target reference note w db =
    if status_eq w.status target
    then (do
      reject_if (is_paid w.status && not (text_eq w.payout_reference reference)) (http 409)
      ok (db, reviewed w.id w.status))
    else (do
      reject_if (is_paid w.status || is_rejected w.status) (http 409)
      reject_if (is_paid target && not (is_processing w.status)) (http 409)
      reject_if (is_rejected target && fails 4) database
      reject_if
          (fails 5
            || not (p.is_admin admin)
            || not (is_empty reference)
              && reference_taken w.id reference (refund target w db).withdrawals)
          (http 409)
      statement fails 6
      statement fails 7
      ok (after_review target reference note admin w db, reviewed w.id target))

-- `AdminReviewWithdrawal`, behind the parsing of the body.
unfoldable pub review_withdrawal :
    Parsers → Faults → Text → Text → Text → ReviewBody → XpDb → Outcome Failure (XpDb × Reply)
review_withdrawal p fails role admin id body db = do
  validate_review p role id body
  statement fails 0
  elim (chosen_status body.status) [
    | none ↦ err (http 400)
    | some target ↦ elim (find_withdrawal id db.withdrawals) [
      | none ↦ err (http 404)
      | some w ↦ (do
        reject_if (fails 1) (http 404)
        statement fails 2
        statement fails 3
        review_row p fails admin target (trim_space body.payout_reference) (trim_space body.note) w
            db)
    ]
  ]
