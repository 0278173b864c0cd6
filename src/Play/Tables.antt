-- ===== src/Play/Tables.antt =====
-- The tables behind subscriptions of the Play Store, internal/playbilling/store.go.
use across_backend_api.Prelude.{ℕ, Bool, Option, List}
use across_backend_api.Prelude.Text.{Text}

pub record Plan : Type 0 where
  pub id : Text
  pub months : ℕ
  pub amount_minor : ℕ
  pub email : Text
  pub eligible : Bool
  pub enabled : Bool

-- A row of `play_provider_refund_jobs`.
pub record RefundJob : Type 0 where
  pub hash : Text
  pub provider : Text
  pub product : Text
  pub base_plan : Text
  pub status : Text

-- A row of `play_provider_purchases`; `none` is a check that never comes.
pub record StoredPurchase : Type 0 where
  pub hash : Text
  pub provider : Text
  pub subscription : Text
  pub product : Text
  pub base_plan : Text
  pub state : Text
  pub auto_renews : Bool
  pub test : Bool
  pub needs_acknowledgement : Bool
  pub next_check_at : Option ℕ

-- A row of `provider_subscriptions`.
pub record Subscription : Type 0 where
  pub id : Text
  pub provider : Text
  pub plan : Text
  pub status : Text
  pub billing_provider : Text
  pub billing_mode : Text
  pub amount_minor : ℕ
  pub months : ℕ
  pub email : Text
  pub starts_at : Option ℕ
  pub period_end : Option ℕ
  pub last_payment_at : Option ℕ
  pub version : ℕ

-- A row of `provider_subscription_payments`.
pub record SubscriptionReceipt : Type 0 where
  pub order : Text
  pub subscription : Text
  pub amount_minor : ℕ
  pub test : Bool
  pub referral_eligible : Bool

-- A row of `payments` of the Play Store.
pub record StorePayment : Type 0 where
  pub transaction : Text
  pub subscription : Text
  pub amount_minor : ℕ

pub record Billing : Type 0 where
  pub refunds : List RefundJob
  pub purchases : List StoredPurchase
  pub subscriptions : List Subscription
  pub receipts : List SubscriptionReceipt
  pub payments : List StorePayment
  pub renewals : List (Text × Text)  -- provider and `renewal_status`
  pub accounts : List Text
  pub intents : List Text

pub record Result : Type 0 where
  pub state : Text
  pub active : Bool
  pub pending : Bool
  pub auto_renews : Bool
  pub needs_acknowledgement : Bool
  pub expires_at : ℕ
  pub refund_state : Text
