-- ===== src/Xp/Requests.antt =====
-- What a request for a withdrawal does to the user's points and withdrawals.
use across_backend_api.Prelude.{ℕ, ◌≤◌, ◌≡◌, ap, ◌∙◌, inl, inr, true, false, not, some, arith, All}
use across_backend_api.Prelude.Text.{Text}
use across_backend_api.Prelude.Outcome.{ok, ◌>>◌, reject_if}
use across_backend_api.Prelude.Int.{pos, pos_part, ◌+ℤ◌, ◌≤ℤ◌}
use across_backend_api.Xp.Rows.{withdrawal_released, XpDb, Faults, http}
use across_backend_api.Xp.Tables.{has_event}
use across_backend_api.Xp.Withdrawals.{
  Parsers, Reply, already, created, Request, trim_request, find_request, has_open, new_withdrawal,
  request_withdrawal, release_unused_xp,
}
use across_backend_api.Xp.Conservation.{total_points, IsOtherId, IsValid}
use across_backend_api.Xp.Opened.{
  open_request-opened, request_withdrawal-opened, spendable, acceptable_points, opened-spendable,
  opened-total_points, opened-IsValid, sufficient, same_details_new, find_request_new,
}

-- A request that opens a withdrawal takes exactly its points, at least 1000, from what the user can
-- spend once the user's expired reservations are released, and leaves no less than nothing; the
-- user had no open withdrawal.
pub request_withdrawal-spends :
    (p : Parsers) (fails : Faults) (now : ℕ) (id user : Text) (raw : Request) (db db' : XpDb)
    {new : Text} {points : ℕ}
    → request_withdrawal p fails now id user raw db ≡ ok (db', created new points)
    → (new ≡ id)
      × (1000 ≤ points)
      × (has_open user db.withdrawals ≡ false)
      × (spendable user db' +ℤ pos points ≡ spendable user (release_unused_xp user false now db))
      × (pos 0 ≤ℤ spendable user db')
request_withdrawal-spends p fails now id user raw db db' {new} {points} ran =
    let (fine, way) =
      request_withdrawal-opened p fails now id user raw db db' (created new points) ran in
    let q : Request = trim_request raw in
    elim way [
      | inl (_, _, _, e, _) ↦ absurd (ground arith)
      | inr (_, ran') ↦
          let (d, r, closed, enough) =
            open_request-opened fails now id user q db db' (created new points) ran' in
          let same : points ≡ pos_part q.points = ground arith in
          let taken : spendable user db' +ℤ pos points
              ≡ spendable user (release_unused_xp user false now db) =
            rw (d, same) (opened-spendable now id user q db) in
          let (least, sign) = acceptable_points q fine in
          (
            ground arith,
            ground arith,
            closed,
            taken,
            sufficient (spendable user db') (spendable user (release_unused_xp user false now db))
                q.points points taken enough same sign,
          )
    ]

-- The request of an opened withdrawal, sent again, changes nothing and is answered with that
-- withdrawal, if the statements up to its lookup do not fail.
pub request_withdrawal_again :
    (p : Parsers) (fails fails' : Faults) (now now' : ℕ) (id id' user : Text) (raw : Request)
    (db db' : XpDb) {new : Text} {points : ℕ}
    → fails' 0 ≡ false
    → fails' 1 ≡ false
    → fails' 2 ≡ false
    → request_withdrawal p fails now id user raw db ≡ ok (db', created new points)
    → request_withdrawal p fails' now' id' user raw db' ≡ ok (db', already new)
unfolding request_withdrawal
request_withdrawal_again p fails fails' now now' id id' user raw db db' {new} {points} f0 f1 f2
      ran =
    let (fine, way) =
      request_withdrawal-opened p fails now id user raw db db' (created new points) ran in
    let q : Request = trim_request raw in
    elim way [
      | inl (_, _, _, e, _) ↦ absurd (ground arith)
      | inr (_, ran') ↦
          let (d, r, _, _) =
            open_request-opened fails now id user q db db' (created new points) ran' in
          let found : find_request user q.request_key db'.withdrawals
              ≡ some (new_withdrawal id user q) =
            rw d (find_request_new now id user q db) in
          let key : p.is_uuid q.request_key ≡ true = ground arith in
          rw (found, f0, f1, f2, fine, key)
            (ap (λ b. do reject_if (not b) (http 409); ok (db', already id))
                (same_details_new id user q)
              ∙ ap (λ n. ok (db', already n)) (ground arith))
    ]

-- A request that succeeds keeps, for every user, the sum of the ledger and the points that the
-- user's withdrawals hold.
pub total_points-request_withdrawal :
    (p : Parsers) (fails : Faults) (now : ℕ) (id user : Text) (raw : Request) (db db' : XpDb)
    (r : Reply)
    → request_withdrawal p fails now id user raw db ≡ ok (db', r)
    → (who : Text) → total_points who db' ≡ total_points who db
total_points-request_withdrawal p fails now id user raw db db' r ran who =
    let (fine, way) = request_withdrawal-opened p fails now id user raw db db' r ran in
    elim way [
      | inl (_, _, e, _, _) ↦ rw e
      | inr (_, ran') ↦
          let (d, _, _, _) =
            open_request-opened fails now id user (trim_request raw) db db' r ran' in
          rw d (opened-total_points now id user who (trim_request raw) db)
    ]

-- A request that succeeds keeps the identifiers distinct and the releases true, when the identifier
-- that the database draws is new.
pub request_withdrawal-IsValid :
    (p : Parsers) (fails : Faults) (now : ℕ) (id user : Text) (raw : Request) (db db' : XpDb)
    (r : Reply)
    → All (IsOtherId id) db.withdrawals
    → has_event user withdrawal_released id db.transactions ≡ false
    → IsValid db
    → request_withdrawal p fails now id user raw db ≡ ok (db', r)
    → IsValid db'
request_withdrawal-IsValid p fails now id user raw db db' r fresh clean v ran =
    let (fine, way) = request_withdrawal-opened p fails now id user raw db db' r ran in
    elim way [
      | inl (_, _, e, _, _) ↦ rw e v
      | inr (_, ran') ↦
          let (d, _, _, _) =
            open_request-opened fails now id user (trim_request raw) db db' r ran' in
          rw d (opened-IsValid now id user (trim_request raw) db fresh clean v)
    ]
