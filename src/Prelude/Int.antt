-- ===== src/Prelude/Int.antt =====
-- Python's integers over the native numbers, and its `%`.
use Prim.Native.Nat.{ℕ, zero, suc, ◌+◌, ◌-◌, ◌%◌}
use mathlib.Core.Bool.{Bool, true, false}
use mathlib.Core.Option.{Option, none, some}
use danube_py.Prelude.Tests.{leb, if◌then◌else◌}

-- `negsuc n` is -(n + 1).
pub data ℤ : Type 0 where
  pos : ℕ → ℤ
  negsuc : ℕ → ℤ

abbrev pub pos_part : ℤ → ℕ
pos_part (pos n) = n
pos_part (negsuc _) = 0

abbrev pub neg_part : ℤ → ℕ
neg_part (pos _) = 0
neg_part (negsuc n) = suc n

abbrev pub sub_ℕ : ℕ → ℕ → ℤ
sub_ℕ a b = if leb b a then pos (a - b) else negsuc (b - a - 1)

infixl 65 ◌+ℤ◌ ◌-ℤ◌
abbrev pub ◌+ℤ◌ : ℤ → ℤ → ℤ
a +ℤ b = sub_ℕ (pos_part a + pos_part b) (neg_part a + neg_part b)

abbrev pub ◌-ℤ◌ : ℤ → ℤ → ℤ
a -ℤ b = sub_ℕ (pos_part a + neg_part b) (neg_part a + pos_part b)

-- `0 < a`
abbrev pub is_pos : ℤ → Bool
is_pos (pos (suc _)) = true
is_pos _ = false

-- `a == 0`
abbrev pub is_zero : ℤ → Bool
is_zero (pos zero) = true
is_zero _ = false

abbrev pub neg : ℤ → ℤ
neg a = sub_ℕ (neg_part a) (pos_part a)

-- Python's `a % n` for a positive `n`: the result lies in 0, …, n - 1 also for a negative `a`.
abbrev pub mod_pos : ℤ → ℕ → ℕ
mod_pos (pos a) n = a % n
mod_pos (negsuc a) n = n - 1 - a % n

-- Python's `a % b`: it has the sign of `b`, and `none` is the ZeroDivisionError.
abbrev pub mod? : ℤ → ℤ → Option ℤ
mod? a (pos zero) = none
mod? a (pos (suc n)) = some (pos (mod_pos a (suc n)))
mod? a (negsuc n) = some (neg (pos (mod_pos (neg a) (suc n))))
