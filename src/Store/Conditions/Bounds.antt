-- ===== src/Store/Conditions/Bounds.antt =====
-- A normalized condition is one that a session can run with.
use Prim.Native.Nat.{ℕ, zero, suc, ◌≤◌}
use gdm_platform.Common.{
  List, [], ◌∷◌, Option, some, none, true, or_else, length, take, ◌≡◌, arith, Bool-cases, inl, inr,
}
use gdm_platform.Shared.Number.{Number, larger, smaller}
use gdm_platform.Store.Conditions.{ConditionInput, clamp_int, normalize_condition, defaults}

length-take-le {ℓ} : {A : Type ℓ} (n : ℕ) (xs : List A) → length (take n xs) ≤ n
length-take-le zero xs = omega arith
length-take-le (suc n) [] = omega arith
length-take-le (suc n) (x ∷ xs) = omega (arith, length-take-le n xs)

module _ {N : Type 0} ⦃n : Number N⦄ where
  le_refl : (a : N) → n.le a a ≡ true
  le_refl a = elim (Bool-cases (n.le a a)) [ inl y ↦ y | inr out ↦ n.le_total a a out ]

  -- `Math.max(lowest, Math.min(highest, x))`.
  clamped_bounds :
      (lowest highest x : N)
      → n.le lowest highest ≡ true
      → (n.le lowest (larger lowest (smaller highest x)) ≡ true)
        × (n.le (larger lowest (smaller highest x)) highest ≡ true)
  clamped_bounds lowest highest x h =
      let below : n.le (smaller highest x) highest ≡ true = elim (Bool-cases (n.le highest x)) [
        | inl over ↦ rw (over, smaller) (le_refl highest)
        | inr under ↦ rw (under, smaller) (n.le_total highest x under)
      ] in
      elim (Bool-cases (n.le lowest (smaller highest x))) [
        | inl in_ ↦ rw (in_, larger) (in_, below)
        | inr out ↦ rw (out, larger) (le_refl lowest, h)
      ]

  clamp_int_bounds :
      (x : Option N) (lowest highest : ℕ)
      → lowest ≤ highest
      → (lowest ≤ clamp_int x lowest highest) × (clamp_int x lowest highest ≤ highest)
  unfolding clamp_int
  clamp_int_bounds none lowest highest h = (omega arith, h)
  clamp_int_bounds (some v) lowest highest h = (omega arith, omega arith)

  -- Whatever an administrator enters, the condition has an identifier and a name of bounded length,
  -- a goal up to 100000, a duration from 1 to 240 minutes and a group of 2 to 50; its warm-up is
  -- from 0 to 240 minutes, its window from 0.1 to 240, its threshold from 0.01 to 1, if the numbers
  -- order these bounds.
  pub normalize_condition_bounds :
      (condition : ConditionInput N)
      → n.le (n.of_ℕ 0) (n.of_ℕ 240) ≡ true
      → n.le (n.tenths 1) (n.of_ℕ 240) ≡ true
      → n.le (n.hundredths 1) (n.of_ℕ 1) ≡ true
      → let c = normalize_condition condition in
        ((length c.id ≤ 128) × (length c.name ≤ 160) × (c.goal ≤ 100000))
        × ((1 ≤ c.duration_minutes) × (c.duration_minutes ≤ 240))
        × ((2 ≤ c.group_size) × (c.group_size ≤ 50))
        × ((n.le (n.of_ℕ 0) c.config.protected_start_minutes ≡ true)
            × (n.le c.config.protected_start_minutes (n.of_ℕ 240) ≡ true))
        × ((n.le (n.tenths 1) c.config.contribution_window_minutes ≡ true)
            × (n.le c.config.contribution_window_minutes (n.of_ℕ 240) ≡ true))
        × ((n.le (n.hundredths 1) c.config.contribution_threshold ≡ true)
            × (n.le c.config.contribution_threshold (n.of_ℕ 1) ≡ true))
  unfolding normalize_condition
  normalize_condition_bounds condition p q r = (
    (
      length-take-le 128 _,
      length-take-le 160 _,
      (clamp_int_bounds condition.goal 0 100000 (omega arith)).1,
    ),
    clamp_int_bounds condition.duration_minutes 1 240 (omega arith),
    clamp_int_bounds condition.group_size 2 50 (omega arith),
    clamped_bounds (n.of_ℕ 0) (n.of_ℕ 240)
        (or_else condition.config.protected_start_minutes defaults.protected_start_minutes) p,
    clamped_bounds (n.tenths 1) (n.of_ℕ 240)
        (or_else condition.config.contribution_window_minutes defaults.contribution_window_minutes)
        q,
    clamped_bounds (n.hundredths 1) (n.of_ℕ 1)
        (or_else condition.config.contribution_threshold defaults.contribution_threshold) r,
  )
