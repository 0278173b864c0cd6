-- ===== src/Prelude/Money.antt =====
-- Amounts of money as Go holds them. A `float64` amount is a whole number of hundredths, one of the
-- two infinities or not a number: the program's amounts have two decimals.
use across_backend_api.Prelude.Int.{ℤ}

pub data Float64 : Type 0 where
  nan inf minus_inf : Float64
  kobo : ℤ → Float64
