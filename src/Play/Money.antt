-- ===== src/Play/Money.antt =====
-- Amounts as Google writes them: `googleMoney` and `minor` of internal/playbilling/order.go.
use across_backend_api.Prelude.{
  ℕ, ◌+◌, ◌-◌, ◌*◌, ◌/◌, ◌%◌, Bool, not, ◌&&◌, ◌||◌, Option, none, some, [], ◌∷◌, ltb, leb, ◌==◌,
  if◌then◌else◌,
}
use across_backend_api.Prelude.Text.{Text, codes, text_eq, is_empty}
use across_backend_api.Prelude.Int.{ℤ, pos, negsuc}

pub record GoogleMoney : Type 0 where
  pub currency : Text
  pub units : Text
  pub nanos : ℤ

abbrev is_digit : ℕ → Bool
is_digit c = leb b'0' c && leb c b'9'

-- The decimal number that a text of digits adds to a number.
unfoldable pub digits_from : ℕ → Text → Option ℕ
digits_from n [] = some n
digits_from n (c ∷ s) =
    let rest = digits_from (n * 10 + (c - 48)) s in if is_digit c then rest else none

abbrev is_nonempty : Text → Bool
is_nonempty s = not (is_empty s)

-- `strconv.ParseInt` in base 10, as far as it is used: a number that is not negative.
unfoldable pub parse_natural : Text → Option ℕ
unfolding digits_from
parse_natural [] = none
parse_natural (c ∷ s) =
    if c == b'+'
    then (if is_nonempty s then digits_from 0 s else none)
    else if c == b'-'
    then (if is_nonempty s
        then elim (digits_from 0 s) [ none ↦ none | some n ↦ if n == 0 then some 0 else none ]
        else none)
    else digits_from 0 (c ∷ s)

-- Whole hundredths of the nanos.
unfoldable pub nanos_part : ℤ → Option ℕ
nanos_part (negsuc n) = none
nanos_part (pos n) =
    if leb 1000000000 n || not (n % 10000000 == 0) then none else some (n / 10000000)

abbrev pub add_minor : Option ℕ → Option ℕ → Option ℕ
add_minor (some u) (some n) = if ltb 999999999999 u then none else some (u * 100 + n)
add_minor (some u) none = none
add_minor none n = none

-- `googleMoney.minor`
unfoldable pub minor : GoogleMoney → Option ℕ
unfolding parse_natural nanos_part text_eq
minor m =
    if text_eq m.currency (codes "NGN")
    then add_minor (parse_natural m.units) (nanos_part m.nanos)
    else none
