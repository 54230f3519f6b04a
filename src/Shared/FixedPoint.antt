-- ===== src/Shared/FixedPoint.antt =====
-- Fixed-point numbers in hundredths, an instance of `Number` on which definitions are tried.
use Prim.Native.Nat.{ℕ, ◌+◌, ◌-◌, ◌*◌, ◌/◌}
use gdm_platform.Common.{true, false, leb, ◌≡◌, arith}
use gdm_platform.Shared.Timestamp.{to_iso}
use gdm_platform.Shared.Number.{Number}

pub le_total : (a b : ℕ) → leb a b ≡ false → leb b a ≡ true
le_total a b p = ground arith

pub le_trans : (a b c : ℕ) → leb a b ≡ true → leb b c ≡ true → leb a c ≡ true
le_trans a b c p q = ground arith

instance unfoldable pub hundredths : Number ℕ
hundredths = record {
  of_ℕ = λ k. 100 * k;
  tenths = λ k. 10 * k;
  hundredths = λ k. k;
  add = λ a b. a + b;
  sub = λ a b. a - b;
  mul = λ a b. a * b / 100;
  div = λ a b. 100 * a / b;
  le = leb;
  round = λ a. (a + 50) / 100;
  to_date = λ a. to_iso (a / 100);
  le_total = le_total;
  le_trans = le_trans;
}
