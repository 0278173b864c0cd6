-- ===== src/Xp/Withdrawals.antt =====
-- XP withdrawals: `RequestWithdrawal` and `AdminReviewWithdrawal` of
-- internal/controllers/xp_withdrawals.go, with `releaseUnusedXP` of xp_redemption.go. A handler
-- returns the committed tables and its reply, or the error behind which its transaction is rolled
-- back. What the libraries and the database decide on texts is a parameter.
use across_backend_api.Prelude.{
  ℕ, zero, suc, Bool, true, false, not, ◌&&◌, ◌||◌, Option, none, some, List, [], ◌∷◌, map, ltb,
  leb, ◌==◌, if◌then◌else◌, length,
}
use across_backend_api.Prelude.Text.{Text, text_eq, trim_space, mem_text}
use across_backend_api.Prelude.Outcome.{Outcome, ok, ◌>>◌, reject_if}
use across_backend_api.Prelude.Int.{ℤ, pos, negsuc, pos_part, ltb_ℤ}
use across_backend_api.Xp.Rows.{
  withdrawal_reserved, Transaction, XpDb, Failure, http, database, Faults, statement, Redemption,
  released, Withdrawal, WithdrawalStatus,
}
use across_backend_api.Xp.Tables.{conflicts, has_event, add_transaction, is_reserved, available_xp}

pub record Parsers : Type 0 where
  pub is_uuid : Text → Bool  -- `uuid.Parse` of google/uuid
  pub is_admin : Text → Bool  -- the `::uuid` cast and the foreign key of `reviewed_by`

-- `releaseUnusedXP`: a reservation of the user is released if it is to be replaced or has expired,
-- and no payment was begun for its order.
unfoldable pub release_row : Text → Bool → ℕ → List Text → Redemption → Redemption
unfolding text_eq mem_text
release_row user replace now payments r =
    if text_eq r.user user
      && is_reserved r.status
      && (replace || leb r.expires_at now)
      && not (mem_text r.order payments)
    then record r { status = released }
    else r

unfoldable pub release_unused_xp : Text → Bool → ℕ → XpDb → XpDb
unfolding release_row
release_unused_xp user replace now db = record db {
  redemptions = map (release_row user replace now db.payments) db.redemptions;
}

pub record Request : Type 0 where
  pub request_key : Text
  pub points : ℤ
  pub bank_name : Text
  pub account_number : Text
  pub account_name : Text

pub data Reply : Type 0 where
  already : Text → Reply
  created : Text → ℕ → Reply
  reviewed : Text → WithdrawalStatus → Reply

abbrev all_digits : Text → Bool
all_digits [] = true
all_digits (c ∷ s) = leb b'0' c && leb c b'9' && all_digits s

-- `^[0-9]{10}$`
unfoldable pub is_account : Text → Bool
is_account s = length s == 10 && all_digits s

abbrev pub trim_request : Request → Request
trim_request q = record q {
  bank_name = trim_space q.bank_name;
  account_name = trim_space q.account_name;
  account_number = trim_space q.account_number;
}

unfoldable pub is_acceptable : Request → Bool
unfolding is_account
is_acceptable q = not (
    ltb_ℤ q.points (pos 1000)
    || ltb_ℤ (pos 100_000_000) q.points
    || ltb (length q.bank_name) 2
    || ltb 100 (length q.bank_name)
    || ltb (length q.account_name) 2
    || ltb 150 (length q.account_name)
    || not (is_account q.account_number))

-- The request of a user with this key, which is unique.
unfoldable pub find_request : Text → Text → List Withdrawal → Option Withdrawal
unfolding text_eq
find_request user key [] = none
find_request user key (w ∷ ws) =
    let rest = find_request user key ws in
    if text_eq w.user user && text_eq w.request_key key then some w else rest

abbrev pub is_open : WithdrawalStatus → Bool
is_open WithdrawalStatus.pending = true
is_open WithdrawalStatus.processing = true
is_open _ = false

unfoldable pub has_open : Text → List Withdrawal → Bool
unfolding text_eq
has_open user [] = false
has_open user (w ∷ ws) = text_eq w.user user && is_open w.status || has_open user ws

abbrev pub same_details : Request → Withdrawal → Bool
same_details q w =
    pos_part q.points == w.points
    && text_eq w.bank_name q.bank_name
    && text_eq w.account_number q.account_number
    && text_eq w.account_name q.account_name

abbrev pub new_withdrawal : Text → Text → Request → Withdrawal
new_withdrawal id user q = record {
  id = id;
  user = user;
  request_key = q.request_key;
  points = pos_part q.points;
  bank_name = q.bank_name;
  account_number = q.account_number;
  account_name = q.account_name;
  status = WithdrawalStatus.pending;
  payout_reference = [];
  admin_note = [];
  reviewed_by = [];
}

abbrev pub negate : ℕ → ℤ
negate zero = pos 0
negate (suc n) = negsuc n

-- What follows once the key is found to be new. `id` is the identifier that the database draws.
unfoldable pub open_request :
    Faults → ℕ → Text → Text → Request → XpDb → Outcome Failure (XpDb × Reply)
unfolding has_open release_unused_xp available_xp has_event
open_request fails now id user q db = do
  statement fails 3
  reject_if (has_open user db.withdrawals) (http 409)
  statement fails 4
  let free : XpDb = release_unused_xp user false now db
  statement fails 5
  reject_if (ltb_ℤ (available_xp user free).0 q.points) (http 409)
  statement fails 6
  let t : Transaction = record {
    user = user;
    amount = negate (pos_part q.points);
    reason = withdrawal_reserved;
    reference = id;
  }
  reject_if (fails 7 || conflicts t free) database
  statement fails 8
  ok (
    add_transaction t (record free { withdrawals = new_withdrawal id user q ∷ free.withdrawals }),
    created id (pos_part q.points),
  )

-- `RequestWithdrawal`, behind the parsing of the body.
unfoldable pub request_withdrawal :
    Parsers → Faults → ℕ → Text → Text → Request → XpDb → Outcome Failure (XpDb × Reply)
unfolding is_acceptable find_request open_request trim_space
request_withdrawal p fails now id user raw db = do
  let q : Request = trim_request raw
  reject_if (not (p.is_uuid q.request_key)) (http 400)
  reject_if (not (is_acceptable q)) (http 400)
  statement fails 0
  statement fails 1
  statement fails 2
  elim (find_request user q.request_key db.withdrawals) [
    | some w ↦ (do reject_if (not (same_details q w)) (http 409); ok (db, already w.id))
    | none ↦ open_request fails now id user q db
  ]
