-- ===== src/Xp/Rows.antt =====
-- The rows of the XP tables, internal/controllers, and the failures of a handler.
use across_backend_api.Prelude.{ℕ, Bool, List, ◌==◌}
use across_backend_api.Prelude.Text.{Text, text_eq}
use across_backend_api.Prelude.Outcome.{Outcome, reject_if}
use across_backend_api.Prelude.Int.{ℤ}

-- `reason` of a transaction; other features write others.
pub data Reason : Type 0 where
  welcome daily_login purchase service_fee_redemption : Reason
  withdrawal_reserved withdrawal_released : Reason
  other : Text → Reason

abbrev reason_code : Reason → ℕ
reason_code welcome = 0
reason_code daily_login = 1
reason_code purchase = 2
reason_code service_fee_redemption = 3
reason_code withdrawal_reserved = 4
reason_code withdrawal_released = 5
reason_code (other _) = 6

unfoldable pub reason_eq : Reason → Reason → Bool
unfolding text_eq
reason_eq (other s) (other t) = text_eq s t
reason_eq a b = reason_code a == reason_code b

-- `xp_transactions`
pub record Transaction : Type 0 where
  pub user : Text
  pub amount : ℤ
  pub reason : Reason
  pub reference : Text

pub data RedemptionStatus : Type 0 where
  reserved consumed released : RedemptionStatus

-- `xp_redemptions`
pub record Redemption : Type 0 where
  pub order : Text
  pub user : Text
  pub points : ℕ
  pub status : RedemptionStatus
  pub expires_at : ℕ

pub data WithdrawalStatus : Type 0 where
  pending processing paid rejected : WithdrawalStatus

-- `xp_withdrawals`
pub record Withdrawal : Type 0 where
  pub id : Text
  pub user : Text
  pub request_key : Text
  pub points : ℕ
  pub bank_name : Text
  pub account_number : Text
  pub account_name : Text
  pub status : WithdrawalStatus
  pub payout_reference : Text
  pub admin_note : Text
  pub reviewed_by : Text

-- `notifications`, whose `event_key` is unique.
pub record Notification : Type 0 where
  pub user : Text
  pub order : Text
  pub kind : Text
  pub event_key : Text

pub data OrderStatus : Type 0 where
  pending paid shipped delivered completed disputed cancelled : OrderStatus

pub record Order : Type 0 where
  pub id : Text
  pub user : Text
  pub status : OrderStatus
  pub currency : Text
  pub platform_fee : ℕ  -- in kobo
  pub xp_discount : ℕ

pub record XpDb : Type 0 where
  pub transactions : List Transaction
  pub daily : List (Text × Text)  -- user and day
  pub redemptions : List Redemption
  pub withdrawals : List Withdrawal
  pub notifications : List Notification
  pub orders : List Order
  pub payments : List Text  -- the orders that have a payment row

-- What a handler returns to its caller besides a result: an HTTP error, or a failure of the
-- database. Both roll the transaction back.
pub data Failure : Type 0 where
  http : ℕ → Failure
  database : Failure

-- Which statements of a handler the database refuses, by their order in the handler.
abbrev pub Faults : Type 0
Faults = ℕ → Bool

abbrev pub statement : Faults → ℕ → Outcome Failure (Unit {0})
statement fails k = reject_if (fails k) database
