-- ===== src/Settlement/Tests.antt =====
-- The reconciliation on small books.
use across_backend_api.Prelude.{
  ℕ, ◌≡◌, refl, true, false, Option, none, some, [], ◌∷◌, map, arith, All,
}
use across_backend_api.Prelude.Text.{Text, codes, to_upper}
use across_backend_api.Prelude.Int.{pos}
use across_backend_api.Prelude.Money.{kobo}
use across_backend_api.Settlement.Values.{
  nil, string, other, Numbers, pending, settled, normalize_settlement_status,
}
use across_backend_api.Settlement.Tables.{Payment, due, Ledger, Books, Detail}
use across_backend_api.Settlement.Apply.{apply_settlement}
use across_backend_api.Settlement.Kept.{Pointwise, Keeps}
use across_backend_api.Settlement.Moves.{
  HasPayout, apply_settlement-Keeps, apply_settlement-HasPayout,
}

-- Amounts are written in kobo, and identifiers are one.
abbrev numbers : Numbers
numbers = record {
  parse_float = λ s. some (kobo (pos 9500));
  parse_uint = λ s. some 1;
  format_int = λ x. codes "1";
}

abbrev seller : Text
seller = codes "RS_1"

abbrev payment : Payment
payment = record {
  provider = codes "flutterwave";
  purpose = codes "order";
  succeeded = true;
  order = codes "o";
  order_reference = codes "tx";
  order_currency = codes "NGN";
  provider_reference = codes "tx";
  transaction = codes "1";
  subaccount = seller;
  currency = codes "NGN";
  charged_amount = none;
  gateway_fee = 0;
  merchant_fee = 0;
  settlement_amount = none;
  settlement_id = [];
  settlement_reference = [];
  settlement_status = pending;
  settlement_destination = [];
  settlement_note = [];
  settled_at = none;
}

abbrev ledger : Ledger
ledger = record {
  order = codes "o";
  currency = codes "NGN";
  expected_net_amount = 10_000;
  net_amount = 10_000;
  gateway_deductions = 0;
  settlement_amount = none;
  settlement_id = [];
  settlement_status = pending;
  settlement_reference = [];
  settlement_destination = [];
  settlement_note = [];
  status = due;
  paid_at = none;
}

abbrev books : Books
books = record { payments = payment ∷ []; ledgers = ledger ∷ [] }

abbrev detail : Detail
detail = record {
  response = codes "success";
  id = string (codes "77");
  status = codes "Completed";
  currency = codes "ngn";
  reference = codes "R";
  disburse_ref = [];
  processor_ref = [];
  destination = [];
  settlement_account = nil;
  processed_at = [];
  flag_message = [];
  transactions =
      record {
        subaccount_settlement = some (pos 1);
        id = other (codes "1");
        tx_ref = codes "tx";
        currency = codes "NGN";
        charged_amount = nil;
        app_fee = nil;
        legacy_app_fee = nil;
        merchant_fee = nil;
        legacy_merchant_fee = nil;
        settlement_amount = other (codes "95");
      }
      ∷ [];
}

abbrev result : Books × ℕ × Option Text
result = apply_settlement numbers (λ k j. false) (λ s. none) 50 seller detail books

-- The money is released, once.
settled_once :
    (map (λ p. p.settlement_status) result.0.payments ≡ settled ∷ [])
    × (map (λ l. l.net_amount) result.0.ledgers ≡ 9500 ∷ [])
    × (result.1 ≡ 1)
    × (result.2 ≡ none)
unfolding apply_settlement to_upper normalize_settlement_status
settled_once = (refl, refl, refl, refl)

apply_settlement-Keeps_example : Pointwise (Keeps seller) books.payments result.0.payments
apply_settlement-Keeps_example =
    apply_settlement-Keeps numbers (λ k j. false) (λ s. none) 50 seller detail books

nothing_paid : All HasPayout books.ledgers
nothing_paid = (λ h. absurd (ground arith), tt)

apply_settlement-HasPayout_example : All HasPayout result.0.ledgers
apply_settlement-HasPayout_example =
    apply_settlement-HasPayout numbers (λ k j. false) (λ s. none) 50 seller detail books
      nothing_paid
