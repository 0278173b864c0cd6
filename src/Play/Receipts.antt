-- ===== src/Play/Receipts.antt =====
-- What makes a receipt of the Play Store good: `validate` of internal/playbilling/client.go. The
-- answers of Google are inputs, as they are parsed from JSON; `parse` is the parsing of a time.
use across_backend_api.Prelude.{
  ℕ, Bool, true, false, not, ◌&&◌, ◌||◌, Option, none, some, List, [], ◌∷◌, ltb, ◌==◌,
  if◌then◌else◌, length,
}
use across_backend_api.Prelude.Text.{Text, codes, text_eq, is_empty, has_prefix, mem_text}
use across_backend_api.Prelude.Outcome.{Outcome, ok, err, ◌>>=◌, ◌>>◌, reject_if}
use across_backend_api.Play.Money.{GoogleMoney, minor}

pub record Expected : Type 0 where
  pub product : Text
  pub base_plan : Text
  pub account : Text
  pub allow_test : Bool
  pub amount_minor : ℕ
  pub prepaid : Bool
  pub verify_order : Bool

-- A line of a receipt. The Booleans say that a part is there.
pub record LineItem : Type 0 where
  pub product : Text
  pub expiry : Text
  pub order : Text
  pub auto_renewing : Option (Bool × GoogleMoney)
  pub prepaid : Bool
  pub base_plan : Text
  pub offer : Text
  pub free_trial : Bool
  pub introductory : Bool

pub record Purchase : Type 0 where
  pub kind : Text
  pub state : Text
  pub acknowledgement : Text
  pub test : Bool
  pub account : Text
  pub items : List LineItem

pub record Verified : Type 0 where
  pub product : Text
  pub base_plan : Text
  pub order : Text
  pub state : Text
  pub expires_at : ℕ
  pub active : Bool
  pub pending : Bool
  pub auto_renews : Bool
  pub test : Bool
  pub needs_acknowledgement : Bool
  pub amount_minor : ℕ

abbrev pub renews : Option (Bool × GoogleMoney) → Bool
renews none = false
renews (some (enabled, price)) = enabled

abbrev pub is_there : Option (Bool × GoogleMoney) → Bool
is_there none = false
is_there (some p) = true

-- The price of the plan, or 0 for a currency that does not count.
abbrev pub listed_price : Option (Bool × GoogleMoney) → Option ℕ
listed_price none = none
listed_price (some (enabled, price)) = minor price

abbrev pub is_amount : Option ℕ → ℕ → Bool
is_amount none n = false
is_amount (some m) n = m == n

abbrev pub unpaid_states : List Text
unpaid_states =
    codes "SUBSCRIPTION_STATE_PENDING" ∷ codes "SUBSCRIPTION_STATE_PENDING_PURCHASE_CANCELED" ∷ []

abbrev pub paid_states : List Text
paid_states =
    codes "SUBSCRIPTION_STATE_ACTIVE"
    ∷ codes "SUBSCRIPTION_STATE_IN_GRACE_PERIOD"
    ∷ codes "SUBSCRIPTION_STATE_CANCELED"
    ∷ []

abbrev pub idle_states : List Text
idle_states =
    codes "SUBSCRIPTION_STATE_ON_HOLD"
    ∷ codes "SUBSCRIPTION_STATE_PAUSED"
    ∷ codes "SUBSCRIPTION_STATE_EXPIRED"
    ∷ []

abbrev pub same_presence : Bool → Bool → Bool
same_presence a b = if a then b else not b

-- The guards before the state is looked at.
unfoldable pub guard_receipt : Purchase → LineItem → Expected → Outcome Text (Unit {0})
unfolding text_eq mem_text
guard_receipt receipt item expected = do
  reject_if
      (not (text_eq receipt.kind (codes "androidpublisher#subscriptionPurchaseV2"))
        || not (text_eq receipt.account expected.account))
      (codes "ownership")
  reject_if
      (not (text_eq item.product expected.product)
        || not (text_eq item.base_plan expected.base_plan)
        || not (is_empty item.offer)
        || not (mem_text receipt.state unpaid_states)
          && same_presence (is_there item.auto_renewing) item.prepaid)
      (codes "product")
  reject_if (receipt.test && not expected.allow_test) (codes "test")
  reject_if
      (not (
        mem_text receipt.acknowledgement (
          codes "ACKNOWLEDGEMENT_STATE_PENDING" ∷ codes "ACKNOWLEDGEMENT_STATE_ACKNOWLEDGED" ∷ [])))
      (codes "acknowledgement")

unfoldable pub first_view : Purchase → LineItem → Verified
first_view receipt item = record {
  product = item.product;
  base_plan = item.base_plan;
  order = item.order;
  state = receipt.state;
  expires_at = 0;
  active = false;
  pending = false;
  auto_renews = renews item.auto_renewing;
  test = receipt.test;
  needs_acknowledgement = false;
  amount_minor = 0;
}

abbrev pub time_of : Option ℕ → Outcome Text ℕ
time_of none = err (codes "expiry")
time_of (some t) = ok t

abbrev pub stops_renewal : Text → Bool
stops_renewal state = mem_text state (
    codes "SUBSCRIPTION_STATE_EXPIRED"
    ∷ codes "SUBSCRIPTION_STATE_CANCELED"
    ∷ codes "SUBSCRIPTION_STATE_PENDING_PURCHASE_CANCELED"
    ∷ [])

-- The test of the price of an active receipt.
unfoldable pub price_fails : LineItem → Expected → Bool
unfolding minor
price_fails item expected =
    expected.prepaid && (not item.prepaid || not expected.verify_order)
    || not expected.prepaid && not (is_there item.auto_renewing)
    || item.free_trial
    || item.introductory
    || not expected.prepaid
      && not (is_amount (listed_price item.auto_renewing) expected.amount_minor)

abbrev pub owes_acknowledgement : Purchase → Bool
owes_acknowledgement receipt =
    text_eq receipt.acknowledgement (codes "ACKNOWLEDGEMENT_STATE_PENDING")

-- What is left behind the state, with whether the receipt was paid.
unfoldable pub dated_view :
    (Text → Option ℕ) → Purchase → LineItem → Expected → ℕ → Bool → Outcome Text Verified
unfolding first_view price_fails text_eq mem_text
dated_view parse receipt item expected now paid = do
  expires ← time_of (parse item.expiry)
  let active : Bool = paid && ltb now expires
  let priced : Bool = ltb 0 expected.amount_minor && active
  reject_if (priced && price_fails item expected) (codes "price")
  ok (record (first_view receipt item) {
    expires_at = expires;
    active = active;
    auto_renews = renews item.auto_renewing && not (stops_renewal receipt.state);
    needs_acknowledgement = active && owes_acknowledgement receipt;
    amount_minor = if priced then expected.amount_minor else 0;
  })

-- The switch on the state: pending, cancelled before it was paid, paid with or without an order,
-- and idle.
abbrev pub by_state :
    Bool
    → Bool
    → Bool
    → Bool
    → Bool
    → Outcome Text Verified
    → Outcome Text Verified
    → Outcome Text Verified
    → Outcome Text Verified
    → Outcome Text Verified
by_state pending cancelled paid idle no_order a b c d =
    if pending
    then a
    else if cancelled
    then b
    else if paid
    then (if no_order then err (codes "order") else c)
    else if idle
    then d
    else err (codes "state")

unfoldable pub view_of_state :
    (Text → Option ℕ) → Purchase → LineItem → Expected → ℕ → Outcome Text Verified
unfolding first_view dated_view text_eq mem_text has_prefix
view_of_state parse receipt item expected now =
    by_state (text_eq receipt.state (codes "SUBSCRIPTION_STATE_PENDING"))
      (text_eq receipt.state (codes "SUBSCRIPTION_STATE_PENDING_PURCHASE_CANCELED"))
      (mem_text receipt.state paid_states) (mem_text receipt.state idle_states)
      (not (has_prefix item.order (codes "GPA.")) || ltb 200 (length item.order))
      (ok (record (first_view receipt item) { pending = true }))
      (ok (record (first_view receipt item) { auto_renews = false }))
      (dated_view parse receipt item expected now true)
      (dated_view parse receipt item expected now false)

unfoldable pub validate_item :
    (Text → Option ℕ) → Purchase → Expected → ℕ → LineItem → Outcome Text Verified
unfolding guard_receipt view_of_state
validate_item parse receipt expected now item =
    guard_receipt receipt item expected >> view_of_state parse receipt item expected now

abbrev pub validate_items :
    (Text → Option ℕ) → Purchase → Expected → ℕ → List LineItem → Outcome Text Verified
validate_items parse receipt expected now [] = err (codes "ownership")
validate_items parse receipt expected now (item ∷ []) =
    validate_item parse receipt expected now item
validate_items parse receipt expected now (item ∷ other ∷ more) = err (codes "ownership")

-- `validate`: the receipt has one line.
unfoldable pub validate : (Text → Option ℕ) → Purchase → Expected → ℕ → Outcome Text Verified
unfolding validate_item
validate parse receipt expected now = validate_items parse receipt expected now receipt.items
