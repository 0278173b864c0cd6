-- ===== src/Payments/Attempts.antt =====
-- `selectPaymentMethods` and `settlePaymentLedger` of internal/controllers/payment_ledger.go.
pub mod Laws
use across_backend_api.Prelude.{
  ℕ, zero, suc, ◌+◌, ◌-◌, ◌*◌, ◌/◌, ◌%◌, ◌^◌, ◌≤◌, ◌<◌, min, max, ◌≡◌, refl, sym, ap, subst, ◌∙◌,
  ◌≢◌, ◌↔◌, ◌⊎◌, inl, inr, Bool, true, false, not, ◌&&◌, ◌||◌, Option, none, some, List, [], ◌∷◌,
  ◌++◌, map, arith, ltb, leb, ◌==◌, if◌then◌else◌, ==_iff, Bool-cases, Option-cases, if_branches,
  length, take, drop, filter_by, length-append, take-append-drop, length-filter_by-le, All,
  All-append, append_assoc, append-nil,
}
use across_backend_api.Prelude.Text.{
  Text, codes, text_eq, text_eq_refl, text_eq_sound, text_eq_iff, is_empty, lower_byte, upper_byte,
  to_lower, to_upper, is_space, trim_left, trim_right, trim_space, has_prefix, contains, mem_text,
}
use across_backend_api.Prelude.Outcome.{
  Outcome, ok, err, ◌>>=◌, ◌>>◌, reject_if, Outcome-cases, >>=-ok, reject_if-ok,
}

-- The methods that a policy allows, trimmed, in lower case, without blanks.
unfoldable pub clean_methods : List Text → List Text
unfolding to_lower trim_space
clean_methods [] = []
clean_methods (m ∷ ms) =
    let method : Text = to_lower (trim_space m) in
    let rest : List Text = clean_methods ms in if is_empty method then rest else method ∷ rest

abbrev pub or_card : List Text → List Text
or_card [] = codes "card" ∷ []
or_card (m ∷ ms) = m ∷ ms

unfoldable pub select_payment_methods : List Text → Text → Option (List Text)
unfolding clean_methods mem_text
select_payment_methods allowed requested =
    let clean : List Text = or_card (clean_methods allowed) in
    let wanted : Text = to_lower (trim_space requested) in
    if is_empty wanted
    then some clean
    else if mem_text wanted clean
    then some (wanted ∷ [])
    else none

pub data Purpose : Type 0 where
  order provider_subscription : Purpose

-- A row of `payments`. `none` is NULL.
pub record Attempt : Type 0 where
  pub provider : Text
  pub purpose : Purpose
  pub reference : Text
  pub transaction : Option Text
  pub succeeded : Bool
  pub provider_status : Text
  pub paid_at : Option ℕ
  pub failure : Text

abbrev pub is_order : Purpose → Bool
is_order order = true
is_order provider_subscription = false

-- `provider_transaction_id IS NULL OR provider_transaction_id=$3`
abbrev pub accepts : Option Text → Text → Bool
accepts none t = true
accepts (some s) t = text_eq s t

unfoldable pub is_settled_by : Text → Text → Text → Attempt → Bool
unfolding text_eq
is_settled_by provider reference transaction a =
    text_eq a.provider provider
    && text_eq a.reference reference
    && is_order a.purpose
    && accepts a.transaction transaction

-- `COALESCE(provider_transaction_id,NULLIF($3,''))`
abbrev pub assigned : Option Text → Text → Option Text
assigned (some s) t = some s
assigned none t = if is_empty t then none else some t

abbrev pub first_time : Option ℕ → ℕ → Option ℕ
first_time (some t) now = some t
first_time none now = some now

abbrev pub settle_attempt : ℕ → Text → Text → Attempt → Attempt
settle_attempt now transaction status a = record a {
  transaction = assigned a.transaction transaction;
  succeeded = true;
  provider_status = status;
  paid_at = first_time a.paid_at now;
  failure = [];
}

-- The update, with the number of rows that it met.
unfoldable pub settle_attempts : ℕ → Text → Text → Text → Text → List Attempt → List Attempt × ℕ
unfolding is_settled_by
settle_attempts now provider reference transaction status [] = ([], 0)
settle_attempts now provider reference transaction status (a ∷ more) =
    let (rest, n) = settle_attempts now provider reference transaction status more in
    if is_settled_by provider reference transaction a
    then (settle_attempt now transaction status a ∷ rest, suc n)
    else (a ∷ rest, n)

-- The rows with this transaction; the unique index allows one for each provider.
unfoldable pub count_transaction : Text → Text → List Attempt → ℕ
unfolding text_eq
count_transaction provider transaction [] = 0
count_transaction provider transaction (a ∷ more) =
    let rest = count_transaction provider transaction more in
    elim a.transaction [
      | none ↦ rest
      | some t ↦
          if text_eq a.provider provider && text_eq t transaction && not (is_empty t)
          then suc rest
          else rest
    ]

-- `settlePaymentLedger`. `fails` says that the statement is refused for another reason.
unfoldable pub settle_payment_ledger :
    Bool → ℕ → Text → Text → Text → Text → List Attempt → Outcome Text (List Attempt)
unfolding settle_attempts count_transaction
settle_payment_ledger fails now provider reference transaction status attempts = do
  let (rows, n) = settle_attempts now provider reference transaction status attempts
  reject_if (fails || ltb 1 (count_transaction provider transaction rows)) (codes "database")
  reject_if (n == 0) (codes "verified payment attempt was not recorded or transaction ID conflicts")
  ok rows
