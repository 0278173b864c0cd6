-- ===== src/Payments/Tables.antt =====
-- The tables that the payment of an order reads and writes, internal/controllers/payment_controller.go.
use across_backend_api.Prelude.{ℕ, Option, List}
use across_backend_api.Prelude.Text.{Text}
use across_backend_api.Prelude.Int.{ℤ}
use across_backend_api.Xp.Rows.{XpDb}
use across_backend_api.Payments.Attempts.{Attempt}

-- A row of `orders`, as far as a payment goes.
pub record PayableOrder : Type 0 where
  pub id : Text
  pub currency : Text
  pub total : ℕ
  pub platform_fee : ℕ
  pub status : Text
  pub tx_ref : Text
  pub transaction : Text
  pub package_label : Text
  pub paid_at : Option ℕ
  pub fulfillment_mode : Text
  pub provider : Option Text

pub record OrderItem : Type 0 where
  pub order : Text
  pub product : Text
  pub quantity : ℕ

pub record Product : Type 0 where
  pub id : Text
  pub sold_count : ℕ

-- A row of `merchant_ledger` for a paid order.
pub record Earning : Type 0 where
  pub event_key : Text
  pub provider : Text
  pub order : Text
  pub currency : Text
  pub gross : ℕ
  pub fee : ℕ
  pub net : ℤ

-- `subaccounts` are the payments with a seller's subaccount: provider, reference and subaccount.
pub record Shop : Type 0 where
  pub orders : List PayableOrder
  pub items : List OrderItem
  pub products : List Product
  pub attempts : List Attempt
  pub earnings : List Earning
  pub subaccounts : List (Text × Text × Text)
  pub jobs : List Text
  pub xp : XpDb
