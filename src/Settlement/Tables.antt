-- ===== src/Settlement/Tables.antt =====
-- The rows that a settlement reads and writes, and what a settlement service answers,
-- internal/controllers/settlement_reconciliation.go.
use across_backend_api.Prelude.{ℕ, Bool, Option, List}
use across_backend_api.Prelude.Text.{Text}
use across_backend_api.Prelude.Int.{ℤ}
use across_backend_api.Settlement.Values.{Any, SettlementStatus}

-- An order's row of `payments`, joined with the order's `flutterwave_tx_ref` and currency. An absent
-- transaction identifier is empty; amounts are in kobo and times in seconds.
pub record Payment : Type 0 where
  pub provider : Text
  pub purpose : Text
  pub succeeded : Bool  -- `payment_status='succeeded'`
  pub order : Text
  pub order_reference : Text
  pub order_currency : Text
  pub provider_reference : Text
  pub transaction : Text
  pub subaccount : Text
  pub currency : Text
  pub charged_amount : Option ℕ
  pub gateway_fee : ℕ
  pub merchant_fee : ℕ
  pub settlement_amount : Option ℕ
  pub settlement_id : Text
  pub settlement_reference : Text
  pub settlement_status : SettlementStatus
  pub settlement_destination : Text
  pub settlement_note : Text
  pub settled_at : Option ℕ

pub data LedgerStatus : Type 0 where
  due paid reversed : LedgerStatus

-- The `order-paid` row of `merchant_ledger` of an order.
pub record Ledger : Type 0 where
  pub order : Text
  pub currency : Text
  pub expected_net_amount : ℕ
  pub net_amount : ℕ
  pub gateway_deductions : ℕ
  pub settlement_amount : Option ℕ
  pub settlement_id : Text
  pub settlement_status : SettlementStatus
  pub settlement_reference : Text
  pub settlement_destination : Text
  pub settlement_note : Text
  pub status : LedgerStatus
  pub paid_at : Option ℕ

pub record Books : Type 0 where
  pub payments : List Payment
  pub ledgers : List Ledger

-- `flutterwaveSettlementTransaction`
pub record Item : Type 0 where
  pub subaccount_settlement : Option ℤ
  pub id : Any
  pub tx_ref : Text
  pub currency : Text
  pub charged_amount : Any
  pub app_fee : Any
  pub legacy_app_fee : Any
  pub merchant_fee : Any
  pub legacy_merchant_fee : Any
  pub settlement_amount : Any

-- `flutterwaveSettlementDetail`
pub record Detail : Type 0 where
  pub response : Text  -- `Status`
  pub id : Any
  pub status : Text
  pub currency : Text
  pub reference : Text
  pub disburse_ref : Text
  pub processor_ref : Text
  pub destination : Text
  pub settlement_account : Any
  pub processed_at : Text
  pub flag_message : Text
  pub transactions : List Item

-- What an update writes, the parameters of the two statements.
pub record Entry : Type 0 where
  pub reference : Text  -- of the payment
  pub subaccount : Text
  pub currency : Text
  pub charged : Option ℕ
  pub app_fee : Option ℕ
  pub merchant_fee : Option ℕ
  pub actual : Option ℕ
  pub id : Text  -- of the settlement
  pub settlement_reference : Text
  pub state : SettlementStatus
  pub destination : Text
  pub processed : Option ℕ
  pub transaction : Text
  pub note : Text
  pub now : ℕ
