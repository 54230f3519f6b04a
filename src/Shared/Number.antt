-- ===== src/Shared/Number.antt =====
-- The program's floating-point numbers, as an interface. NaN and the infinities are left out: the
-- scores, shares and minutes that the services compute with are finite.
use Prim.Native.Nat.{ℕ}
use gdm_platform.Common.{Bool, true, false, not, ◌≡◌}
use gdm_platform.Shared.Timestamp.{Timestamp}

pub record Number (N : Type 0) : Type 0 where
  pub of_ℕ : ℕ → N
  pub tenths : ℕ → N
  pub hundredths : ℕ → N
  pub add : N → N → N
  pub sub : N → N → N
  pub mul : N → N → N
  pub div : N → N → N
  pub le : N → N → Bool
  -- `Math.max(0, Math.round(x))`.
  pub round : N → ℕ
  -- `new Date(x).toISOString()`.
  pub to_date : N → Timestamp
  pub le_total : (a b : N) → le a b ≡ false → le b a ≡ true
  pub le_trans : (a b c : N) → le a b ≡ true → le b c ≡ true → le a c ≡ true

module _ {N : Type 0} ⦃n : Number N⦄ where
  -- `a < b`.
  abbrev pub lt : N → N → Bool
  lt a b = not (n.le b a)

  -- `Math.max(a, b)`.
  abbrev pub larger : N → N → N
  larger a b = elim (n.le a b) [ true ↦ b | false ↦ a ]

  -- `Math.min(a, b)`.
  abbrev pub smaller : N → N → N
  smaller a b = elim (n.le a b) [ true ↦ a | false ↦ b ]

  abbrev pub zero_number : N
  zero_number = n.of_ℕ 0

  -- Minutes in milliseconds: `minutes * 60_000`.
  abbrev pub minutes_ms : N → N
  minutes_ms minutes = n.mul minutes (n.of_ℕ 60000)
