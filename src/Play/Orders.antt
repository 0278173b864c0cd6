-- ===== src/Play/Orders.antt =====
-- `verifyOrder` of internal/playbilling/order.go and `Verify` of client.go behind their requests to
-- Google, whose answers are inputs: `none` is an answer that is not there or cannot be read.
use across_backend_api.Prelude.{
  some_same, ℕ, ◌+◌, ◌*◌, ◌/◌, ◌%◌, ◌≤◌, ◌≡◌, refl, sym, subst, ◌⊎◌, inl, inr, Bool, true, false,
  not, ◌&&◌, ◌||◌, Option, none, some, List, [], ◌∷◌, arith, ltb, leb, ◌==◌, if◌then◌else◌,
  Bool-cases,
}
use across_backend_api.Prelude.Text.{Text, codes, text_eq, is_empty}
use across_backend_api.Prelude.Outcome.{
  ok_same, err_ok, Outcome, ok, err, ◌>>=◌, ◌>>◌, reject_if, reject_if-ok,
}
use across_backend_api.Prelude.Int.{ℤ, pos, negsuc}
use across_backend_api.Play.Money.{GoogleMoney, minor, parse_natural, nanos_part, add_minor}
use across_backend_api.Play.Receipts.{Expected, Purchase, Verified, is_amount, validate}

-- The subscription of an order's line.
pub record OrderedPlan : Type 0 where
  pub base : Text
  pub offer : Text
  pub phase : Text
  pub base_details : Bool

pub record OrderLine : Type 0 where
  pub product : Text
  pub price : GoogleMoney
  pub subscription : Option OrderedPlan

pub record Order : Type 0 where
  pub id : Text
  pub token : Text
  pub state : Text
  pub total : GoogleMoney
  pub items : List OrderLine

abbrev is_plan : Expected → Option OrderedPlan → Bool
is_plan expected none = false
is_plan expected (some s) =
    text_eq s.base expected.base_plan
    && is_empty s.offer
    && (text_eq s.phase (codes "BASE") || s.base_details)

-- The amount that was paid; nothing is only good for a test, which stands for the price.
unfoldable pub paid_amount : Verified → Expected → Option ℕ → Outcome Text ℕ
paid_amount receipt expected none = err (codes "payment amount")
paid_amount receipt expected (some n) =
    if n == 0
    then (if receipt.test && expected.allow_test
        then ok expected.amount_minor
        else err (codes "payment amount"))
    else ok n

unfoldable pub verify_line : Verified → Expected → GoogleMoney → OrderLine → Outcome Text ℕ
unfolding text_eq minor paid_amount
verify_line receipt expected total line = do
  reject_if
      (not (text_eq line.product expected.product) || not (is_plan expected line.subscription))
      (codes "product or phase")
  reject_if (not (is_amount (minor line.price) expected.amount_minor)) (codes "listed price")
  paid_amount receipt expected (minor total)

abbrev pub verify_lines : Verified → Expected → GoogleMoney → List OrderLine → Outcome Text ℕ
verify_lines receipt expected total [] = err (codes "ownership")
verify_lines receipt expected total (line ∷ []) = verify_line receipt expected total line
verify_lines receipt expected total (line ∷ other ∷ more) = err (codes "ownership")

-- `verifyOrder`
unfoldable pub verify_order : Option Order → Text → Verified → Expected → Outcome Text ℕ
unfolding verify_line text_eq
verify_order none token receipt expected = err (codes "order")
verify_order (some order) token receipt expected = do
  reject_if
      (not (text_eq order.id receipt.order)
        || not (text_eq order.token token)
        || not (text_eq order.state (codes "PROCESSED")))
      (codes "ownership")
  verify_lines receipt expected order.total order.items

abbrev pub with_amount : Bool → Option Order → Text → Expected → Verified → Outcome Text Verified
with_amount false order token expected v = ok v
with_amount true order token expected v =
    verify_order order token v expected >>= λ paid. ok (record v { amount_minor = paid })

abbrev received : Option Purchase → Outcome Text Purchase
received none = err (codes "response")
received (some p) = ok p

-- `Verify`, on an input that is well formed.
unfoldable pub verify :
    (Text → Option ℕ) → Option Purchase → Option Order → Text → Expected → ℕ → Outcome Text Verified
unfolding validate verify_order
verify parse answer order token expected now = do
  receipt ← received answer
  v ← validate parse receipt expected now
  with_amount (v.active && expected.verify_order) order token expected v

quotient_bound : (m : ℕ) → leb 1000000000 m ≡ false → m / 10000000 ≤ 99
quotient_bound m h = ground arith

if_some : (bad : Bool) (a n : ℕ) → (if bad then none else some a) ≡ some n → (bad ≡ false) × (a ≡ n)
if_some true a n e = absurd (ground arith)
if_some false a n e = (refl, some_same a n e)

or_first : (a b : Bool) → (a || b) ≡ false → a ≡ false
or_first true b h = absurd (ground arith)
or_first false b h = refl

nanos_part-bound : (z : ℤ) (n : ℕ) → nanos_part z ≡ some n → n ≤ 99
unfolding nanos_part
nanos_part-bound (negsuc m) n e = absurd (ground arith)
nanos_part-bound (pos m) n e =
    let (good, same) = if_some (leb 1000000000 m || not (m % 10000000 == 0)) (m / 10000000) n e in
    subst (λ z. z ≤ 99) same (quotient_bound m (or_first (leb 1000000000 m) _ good))

add_minor-bound :
    (u p : Option ℕ) (n : ℕ)
    → ((k : ℕ) → p ≡ some k → k ≤ 99)
    → add_minor u p ≡ some n
    → n ≤ 99999999999999
add_minor-bound none p n h e = absurd (ground arith)
add_minor-bound (some u) none n h e = absurd (ground arith)
add_minor-bound (some u) (some k) n h e =
    let (good, same) = if_some (ltb 999999999999 u) (u * 100 + k) n e in
    let small : u ≤ 999999999999 = ground (arith, good) in
    let less : k ≤ 99 = h k refl in omega (arith, same, small, less)

none_some : {B : Type 0} (n : ℕ) → none ≡ some n → B
none_some n e = absurd (ground arith)

minor-bound : (m : GoogleMoney) (n : ℕ) → minor m ≡ some n → n ≤ 99999999999999
unfolding minor
minor-bound m n e = elim (Bool-cases (text_eq m.currency (codes "NGN"))) [
  | inl ngn ↦
      add_minor-bound (parse_natural m.units) (nanos_part m.nanos) n (nanos_part-bound m.nanos)
        (rw ngn at e)
  | inr other ↦ none_some n (rw other at e)
]

-- What an amount that was verified is: a payment that is not 0 and below 10^14, or the price, for a
-- test purchase where these are allowed.
abbrev pub IsPaid : Verified → Expected → ℕ → Type 0
IsPaid receipt expected n =
    ((1 ≤ n) × (n ≤ 99999999999999))
    ⊎ (((receipt.test && expected.allow_test) ≡ true) × (n ≡ expected.amount_minor))

paid_amount-IsPaid :
    (receipt : Verified) (expected : Expected) (total : Option ℕ) (n : ℕ)
    → ((k : ℕ) → total ≡ some k → k ≤ 99999999999999)
    → paid_amount receipt expected total ≡ ok n
    → IsPaid receipt expected n
unfolding paid_amount
paid_amount-IsPaid receipt expected none n h e = err_ok (codes "payment amount") n e
paid_amount-IsPaid receipt expected (some m) n h e = elim (Bool-cases (m == 0)) [
  | inl zero_paid ↦ elim (Bool-cases (receipt.test && expected.allow_test)) [
    | inl test ↦ inr (test, sym (ok_same expected.amount_minor n (rw (zero_paid, test) at e)))
    | inr real ↦ err_ok (codes "payment amount") n (rw (zero_paid, real) at e)
  ]
  | inr some_paid ↦
      let same : m ≡ n = ok_same m n (rw some_paid at e) in
      inl (subst (λ z. (1 ≤ z) × (z ≤ 99999999999999)) same (ground (arith, some_paid), h m refl))
]

verify_lines-IsPaid :
    (receipt : Verified) (expected : Expected) (total : GoogleMoney) (lines : List OrderLine)
    (n : ℕ)
    → verify_lines receipt expected total lines ≡ ok n
    → IsPaid receipt expected n
unfolding verify_line
verify_lines-IsPaid receipt expected total [] n e = err_ok (codes "ownership") n e
verify_lines-IsPaid receipt expected total (line ∷ other ∷ more) n e =
    err_ok (codes "ownership") n e
verify_lines-IsPaid receipt expected total (line ∷ []) n e =
    let (fits, e1) =
      reject_if-ok
        (not (text_eq line.product expected.product) || not (is_plan expected line.subscription))
        (codes "product or phase") _ e in
    let (listed, e2) =
      reject_if-ok (not (is_amount (minor line.price) expected.amount_minor)) (codes "listed price")
        _ e1 in
    paid_amount-IsPaid receipt expected (minor total) n (minor-bound total) e2

-- The amount of an order that is verified is a payment that is not 0 and below 10^14 hundredths, so
-- that no 64-bit integer overflows, or the price, for a test purchase where these are allowed.
pub verify_order-IsPaid :
    (order : Option Order) (token : Text) (receipt : Verified) (expected : Expected) (n : ℕ)
    → verify_order order token receipt expected ≡ ok n
    → IsPaid receipt expected n
unfolding verify_order
verify_order-IsPaid none token receipt expected n e = err_ok (codes "order") n e
verify_order-IsPaid (some order) token receipt expected n e =
    verify_lines-IsPaid receipt expected order.total order.items n
      (reject_if-ok
        (not (text_eq order.id receipt.order)
          || not (text_eq order.token token)
          || not (text_eq order.state (codes "PROCESSED")))
        (codes "ownership") _ e).1
