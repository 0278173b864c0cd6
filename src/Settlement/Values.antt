-- ===== src/Settlement/Values.antt =====
-- The values of a settlement response: `settlementNumericID`, `optionalSettlementAmount` and
-- `normalizeSettlementStatus` of internal/controllers/settlement_reconciliation.go, with `gatewayID`,
-- `amountValue` and `firstNonEmpty` of payment_controller.go. On whole kobo `roundMoney` is the
-- identity.
use across_backend_api.Prelude.{
  ℕ, ◌%◌, Bool, true, false, not, ◌&&◌, ◌||◌, Option, none, some, List, [], ◌∷◌, ltb, ◌==◌,
  if◌then◌else◌,
}
use across_backend_api.Prelude.Text.{Text, codes, text_eq, is_empty, to_lower, trim_space, contains}
use across_backend_api.Prelude.Outcome.{Outcome, ok, err}
use across_backend_api.Prelude.Int.{pos, negsuc}
use across_backend_api.Prelude.Money.{Float64, nan, inf, minus_inf, kobo}

-- A value that JSON decoding leaves in a field of type `any`; `other` is what `fmt.Sprint` prints.
pub data Any : Type 0 where
  nil : Any
  float : Float64 → Any
  string : Text → Any
  other : Text → Any

-- The functions of strconv: `ParseFloat`, `ParseUint` in base 10 with 64 bits, and `FormatInt` of
-- a truncated amount.
pub record Numbers : Type 0 where
  pub parse_float : Text → Option Float64
  pub parse_uint : Text → Option ℕ
  pub format_int : Float64 → Text

pub data SettlementStatus : Type 0 where
  pending on_hold settled failed reversed : SettlementStatus

-- A settlement that is held or flagged is on hold, whatever else its status says.
unfoldable pub normalize_settlement_status : Text → SettlementStatus
unfolding to_lower trim_space contains text_eq
normalize_settlement_status value =
    let v : Text = to_lower (trim_space value) in
    if contains v (codes "hold") || contains v (codes "flag")
    then on_hold
    else if text_eq v (codes "successful")
        || text_eq v (codes "success")
        || text_eq v (codes "completed")
    then settled
    else if text_eq v (codes "failed")
    then failed
    else if text_eq v (codes "reversed")
    then reversed
    else pending

abbrev pub trim_quotes_left : Text → Text
trim_quotes_left [] = []
trim_quotes_left (c ∷ s) = if c == b'"' then trim_quotes_left s else c ∷ s

abbrev pub trim_quotes_right : Text → Text
trim_quotes_right [] = []
trim_quotes_right (c ∷ s) =
    let rest = trim_quotes_right s in if is_empty rest && c == b'"' then [] else c ∷ rest

-- `strings.Trim(s, "\"")`
abbrev pub trim_quotes : Text → Text
trim_quotes s = trim_quotes_right (trim_quotes_left s)

module _ (numbers : Numbers) where
  unfoldable pub gateway_id : Any → Text
  gateway_id nil = codes "<nil>"
  gateway_id (float x) = numbers.format_int x
  gateway_id (string s) = s
  gateway_id (other s) = trim_quotes s

  -- A float that is no positive whole number is no identifier.
  unfoldable pub is_bad_float : Any → Bool
  is_bad_float (float nan) = true
  is_bad_float (float inf) = true
  is_bad_float (float minus_inf) = true
  is_bad_float (float (kobo (negsuc n))) = true
  is_bad_float (float (kobo (pos n))) = not (n % 100 == 0) || n == 0
  is_bad_float _ = false

  unfoldable pub settlement_numeric_id : Any → Text
  unfolding gateway_id is_bad_float
  settlement_numeric_id nil = []
  settlement_numeric_id v =
      if is_bad_float v then [] else elim (numbers.parse_uint (gateway_id v)) [
        | none ↦ []
        | some n ↦ if n == 0 then [] else gateway_id v
      ]

  unfoldable pub amount_value : Any → Option Float64
  amount_value nil = numbers.parse_float (codes "<nil>")
  amount_value (float x) = some x
  amount_value (string s) = numbers.parse_float s
  amount_value (other s) = numbers.parse_float s

  -- The amount in kobo, or none for one that is refused.
  unfoldable pub checked_amount : Option Float64 → Option ℕ
  checked_amount (some (kobo (pos n))) = if ltb n 100_000_000_000_000 then some n else none
  checked_amount _ = none

  -- `optionalSettlementAmount`: the first value that is there.
  unfoldable pub optional_settlement_amount : List Any → Outcome Text (Option ℕ)
  unfolding amount_value checked_amount
  optional_settlement_amount [] = ok none
  optional_settlement_amount (nil ∷ values) = optional_settlement_amount values
  optional_settlement_amount (v ∷ values) = elim (checked_amount (amount_value v)) [
    | none ↦ err (codes "invalid settlement amount")
    | some n ↦ ok (some n)
  ]

unfoldable pub first_non_empty : List Text → Text
unfolding trim_space
first_non_empty [] = []
first_non_empty (value ∷ values) =
    let rest = first_non_empty values in
    if not (is_empty (trim_space value)) then trim_space value else rest
