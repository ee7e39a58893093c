-- ===== src/Base/Int.antt =====
-- C's `int`: signed integers over the native numbers, and the conversion to `unsigned int`.
use xfce4_screensaver.Base.Tests.{ltb, ◌==◌}
use Prim.Native.Nat.{ℕ, zero, suc, ◌+◌, ◌-◌, ◌*◌, ◌%◌, ◌^◌}
use mathlib.Core.Bool.{Bool, false}

-- `negsuc n` is -(n + 1).
pub data ℤ : Type 0 where
  pos : ℕ → ℤ
  negsuc : ℕ → ℤ

abbrev pub pos_part : ℤ → ℕ
pos_part (pos n) = n
pos_part (negsuc n) = 0

abbrev pub neg_part : ℤ → ℕ
neg_part (pos n) = 0
neg_part (negsuc n) = suc n

abbrev pub ltb_ℤ : ℤ → ℤ → Bool
ltb_ℤ a b = ltb (pos_part a + neg_part b) (pos_part b + neg_part a)

-- A conversion to `guint` keeps the value modulo 2 ^ 32.
abbrev pub guint : ℤ → ℕ
guint (pos n) = n % 2 ^ 32
guint (negsuc n) = 2 ^ 32 - 1 - n % 2 ^ 32

abbrev pub eqb_ℤ : ℤ → ℤ → Bool
eqb_ℤ (pos a) (pos b) = a == b
eqb_ℤ (negsuc a) (negsuc b) = a == b
eqb_ℤ _ _ = false

-- A product with a positive constant.
abbrev pub mul_ℕ : ℤ → ℕ → ℤ
mul_ℕ (pos a) k = pos (a * k)
mul_ℕ (negsuc a) zero = pos 0
mul_ℕ (negsuc a) (suc k) = negsuc (a * suc k + k)
