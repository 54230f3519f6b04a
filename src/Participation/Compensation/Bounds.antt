-- ===== src/Participation/Compensation/Bounds.antt =====
-- The bounds of a partial payment.
use native.Mathlib.Nat.{mul-le-mul_right}
use gdm_platform.Common.{ℕ, ◌≤◌, ◌*◌, ◌/◌, ◌-◌, max, arith}
use gdm_platform.Participation.Compensation.{
  EnvNumber, at_least_minimum, partial_payment_pence, partial_payment_min_pence,
  default_partial_payment_max_pence, default_partial_payment_pence_per_minute, started_minutes,
}

at_least_minimum-ge :
    (env : EnvNumber) (fallback : ℕ) → partial_payment_min_pence ≤ at_least_minimum env fallback
unfolding at_least_minimum
at_least_minimum-ge env fallback = ground arith

-- A partial payment is at least 10 pence and at most the configured maximum, which is itself never
-- below 10 pence, and it does not fall as time goes on.
pub partial_payment_bounds :
    (per_minute maximum : EnvNumber) (started now later : ℕ)
    → now ≤ later
    → (partial_payment_min_pence ≤ partial_payment_pence per_minute maximum started now)
      × (partial_payment_pence per_minute maximum started now
          ≤ at_least_minimum maximum default_partial_payment_max_pence)
      × (partial_payment_pence per_minute maximum started now
          ≤ partial_payment_pence per_minute maximum started later)
unfolding partial_payment_pence
partial_payment_bounds per_minute maximum started now later h =
    let rate = at_least_minimum per_minute default_partial_payment_pence_per_minute in
    let before = started_minutes (max 1 ((now - started) / 1000)) in
    let after = started_minutes (max 1 ((later - started) / 1000)) in
    let longer : before ≤ after = omega arith in
    let more : before * rate ≤ after * rate = mul-le-mul_right rate longer in
    (
      omega (arith, at_least_minimum-ge maximum default_partial_payment_max_pence),
      omega arith,
      omega (arith, more),
    )
