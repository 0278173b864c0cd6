-- ===== src/Payments/References.antt =====
-- The references of payments: `newPaymentReference` and `parseOrderID` of
-- internal/controllers/payment_controller.go. The parsing of a UUID is a parameter.
use across_backend_api.Prelude.{
  ℕ, suc, ◌+◌, ◌≡◌, refl, ap, subst, Bool, true, false, not, ◌||◌, [], ◌∷◌, ◌++◌, arith, ltb, ◌==◌,
  if◌then◌else◌, length, take, drop, length-append,
}
use across_backend_api.Prelude.Text.{Text, codes, has_prefix}
use across_backend_api.Prelude.Outcome.{Outcome, ok, err, ◌>>◌, reject_if}

abbrev prefix : Text
prefix = codes "ACROSS-"

-- `newPaymentReference`, with the UUID that is drawn.
unfoldable pub new_payment_reference : Text → Text → Text
new_payment_reference order drawn = prefix ++ (order ++ (codes "-" ++ drawn))

abbrev pub starts_with : ℕ → Text → Bool
starts_with c [] = false
starts_with c (d ∷ s) = d == c

unfoldable pub parse_rest : (Text → Bool) → Text → Outcome Text Text
parse_rest is_uuid rest = do
  reject_if (ltb (length rest) 37 || not (starts_with b'-' (drop 36 rest)))
      (codes "invalid order reference")
  reject_if (not (is_uuid (take 36 rest))) (codes "invalid order id")
  ok (take 36 rest)

-- `parseOrderID`
unfoldable pub parse_order_id : (Text → Bool) → Text → Outcome Text Text
unfolding has_prefix parse_rest
parse_order_id is_uuid tx_ref =
    if has_prefix tx_ref prefix
    then parse_rest is_uuid (drop (length prefix) tx_ref)
    else err (codes "missing prefix")

take-length : (s t : Text) → take (length s) (s ++ t) ≡ s
take-length [] t = refl
take-length (c ∷ s) t = ap (λ z. c ∷ z) (take-length s t)

drop-length : (s t : Text) → drop (length s) (s ++ t) ≡ t
drop-length [] t = refl
drop-length (c ∷ s) t = drop-length s t

long_enough : (k : ℕ) → ltb (36 + suc k) 37 ≡ false
long_enough k = ground arith

parse_rest-append :
    (is_uuid : Text → Bool) (order drawn : Text)
    → length order ≡ 36
    → is_uuid order ≡ true
    → parse_rest is_uuid (order ++ (codes "-" ++ drawn)) ≡ ok order
unfolding parse_rest
parse_rest-append is_uuid order drawn n u =
    let tail : Text = codes "-" ++ drawn in
    let long : ltb (length (order ++ tail)) 37 ≡ false =
      rw (length-append order tail, n) (long_enough (length drawn)) in
    let rest : drop 36 (order ++ tail) ≡ tail =
      subst (λ k. drop k (order ++ tail) ≡ tail) n (drop-length order tail) in
    let first : take 36 (order ++ tail) ≡ order =
      subst (λ k. take k (order ++ tail) ≡ order) n (take-length order tail) in
    rw (long, rest, first, u) refl

-- The order of a payment is read back from its reference, when its identifier is a UUID of 36
-- characters.
pub parse_order_id-new_payment_reference :
    (is_uuid : Text → Bool) (order drawn : Text)
    → length order ≡ 36
    → is_uuid order ≡ true
    → parse_order_id is_uuid (new_payment_reference order drawn) ≡ ok order
unfolding parse_order_id new_payment_reference has_prefix
parse_order_id-new_payment_reference is_uuid order drawn n u =
    parse_rest-append is_uuid order drawn n u
