-- ===== src/Email/Attempts.antt =====
-- The pause between the attempts of a mail, internal/services/email_outbox.go.
use across_backend_api.Prelude.{
  ℕ, zero, suc, ◌+◌, ◌-◌, ◌*◌, ◌^◌, ◌≤◌, ◌<◌, min, ◌≡◌, sym, subst, inl, inr, arith, ltb,
  Bool-cases,
}
use across_backend_api.Email.Delivery.{retry_delay}

power_pos : (n : ℕ) → 1 ≤ 2 ^ n
power_pos zero = omega arith
power_pos (suc n) = omega (arith, power_pos n)

power_le : (d n : ℕ) → d + n ≡ 9 → 2 ^ n ≤ 512
power_le zero n h =
    let e : n ≡ 9 = omega (arith, h) in subst (λ k. 2 ^ k ≤ 512) (sym e) (omega arith)
power_le (suc d) n h = omega (arith, power_le d (suc n) (omega arith))

capped_power : (n : ℕ) → (1 ≤ 2 ^ min n 9) × (2 ^ min n 9 ≤ 512)
capped_power n = (power_pos (min n 9), power_le (9 - min n 9) (min n 9) (omega arith))

capped_step :
    (n : ℕ) → (2 ^ min n 9 ≤ 2 ^ min (suc n) 9) × (n < 9 → 2 ^ min (suc n) 9 ≡ 2 * 2 ^ min n 9)
capped_step n = elim (Bool-cases (ltb n 9)) [
  | inl below ↦
      let e : min (suc n) 9 ≡ suc (min n 9) = ground arith in
      rw e (omega (arith, power_pos (min n 9)), λ h. omega arith)
  | inr above ↦
      let e : min (suc n) 9 ≡ min n 9 = ground arith in
      rw e (omega arith, λ h. absurd (ground arith))
]

-- The limit of six hours is above every pause.
retry_delay-suc : (n : ℕ) → retry_delay (suc n) ≡ 30 * 2 ^ min n 9
unfolding retry_delay
retry_delay-suc n = ground (arith, capped_power n)

-- The pause before the next attempt is half a minute at least, and four hours and sixteen minutes
-- at most, so that the limit of six hours is never met; another attempt never makes it shorter, and
-- up to the tenth it doubles it.
pub retry_delay-bounds :
    (n : ℕ)
    → (30 ≤ retry_delay n)
      × (retry_delay n ≤ 15360)
      × (retry_delay n ≤ retry_delay (suc n))
      × ((1 ≤ n) → (n ≤ 9) → retry_delay (suc n) ≡ 2 * retry_delay n)
unfolding retry_delay
retry_delay-bounds zero = (omega arith, omega arith, omega arith, λ h k. absurd (omega arith))
retry_delay-bounds (suc n) =
    rw (retry_delay-suc n, retry_delay-suc (suc n))
      (
        omega (arith, capped_power n),
        omega (arith, capped_power n),
        omega (arith, capped_step n),
        λ h k. omega (arith, (capped_step n).1 (omega arith)),
      )
