-- ===== src/Prelude/Bits.antt =====
-- `bit_and` with a mask of ones.
use Prim.Native.Nat.{
  ℕ, zero, suc, ◌+◌, ◌-◌, ◌*◌, ◌/◌, ◌%◌, ◌^◌, ◌≤◌, ◌<◌, min, bit_and, digits, bit_and-bitwise,
}
use mathlib.Core.Path.{◌≡◌, refl, sym, ap, subst, ◌∙◌}
use native.Mathlib.Nat.{mod-lt, div-add-mod, add-mul-mod_self_right, mod-eq_of_lt}
use native.Mathlib.Omega.{arith}

abbrev and_digits : ℕ → ℕ → ℕ → ℕ
and_digits n a b = digits (λ b. zero) min n a b

-- Only the rounds that `a` has digits for count.
and_digits_rounds : (n m a b : ℕ) → a ≤ n → a ≤ m → and_digits n a b ≡ and_digits m a b
and_digits_rounds zero zero a b p q = refl
and_digits_rounds zero (suc m) zero b p q = refl
and_digits_rounds zero (suc m) (suc a) b p q = absurd (omega arith)
and_digits_rounds (suc n) zero zero b p q = refl
and_digits_rounds (suc n) zero (suc a) b p q = absurd (omega arith)
and_digits_rounds (suc n) (suc m) zero b p q = refl
and_digits_rounds (suc n) (suc m) (suc a) b p q =
    omega (arith, and_digits_rounds n m (suc a / 2) (b / 2) (omega arith) (omega arith))

zero-bit_and : (b : ℕ) → bit_and 0 b ≡ 0
zero-bit_and b = bit_and-bitwise 0 b

bit_and_halves : (a b : ℕ) → bit_and a b ≡ bit_and (a / 2) (b / 2) * 2 + min (a % 2) (b % 2)
bit_and_halves zero b = omega (arith, zero-bit_and b, zero-bit_and (b / 2))
bit_and_halves (suc a) b = omega (
  arith,
  bit_and-bitwise (suc a) b,
  bit_and-bitwise (suc a / 2) (b / 2),
  and_digits_rounds a (suc a / 2) (suc a / 2) (b / 2) (omega arith) (omega arith),
)

-- Masking never goes past the mask.
bit_and-le_fuel : (n a b : ℕ) → a ≤ n → bit_and a b ≤ b
bit_and-le_fuel n zero b h = omega (arith, zero-bit_and b)
bit_and-le_fuel zero (suc a) b h = absurd (omega arith)
bit_and-le_fuel (suc n) (suc a) b h =
    omega (arith, bit_and_halves (suc a) b, bit_and-le_fuel n (suc a / 2) (b / 2) (omega arith))

pub bit_and-le : (a b : ℕ) → bit_and a b ≤ b
bit_and-le a b = bit_and-le_fuel a a b (omega arith)

mod_halves : (x m : ℕ) → 0 < m → x % (m * 2) ≡ x / 2 % m * 2 + x % 2
mod_halves x m h =
    let s = x / 2 % m * 2 + x % 2 in
    let k = x / 2 / m in
    let whole : x ≡ s + k * (m * 2) = grind (arith, div-add-mod (x / 2) m, div-add-mod x 2) in
    ap (λ (t : ℕ). t % (m * 2)) whole
    ∙ add-mul-mod_self_right s k (m * 2)
    ∙ mod-eq_of_lt (omega (arith, mod-lt (x / 2) h))

pow_pos : (n : ℕ) → 0 < 2 ^ n
pow_pos zero = omega arith
pow_pos (suc n) = omega (arith, pow_pos n)

min_bit : (x : ℕ) → min (x % 2) 1 ≡ x % 2
min_bit x = min_small (x % 2) (omega arith)
  where
    min_small : (b : ℕ) → b < 2 → min b 1 ≡ b
    min_small zero h = refl
    min_small (suc zero) h = refl
    min_small (suc (suc b)) h = absurd (omega arith)

-- Masking with n ones is the remainder modulo 2 ^ n.
pub bit_and_ones : (n x : ℕ) → bit_and x (2 ^ n - 1) ≡ x % 2 ^ n
bit_and_ones zero x = omega (arith, bit_and-le x 0)
bit_and_ones (suc n) x =
    let m = 2 ^ n in
    let k = m * 2 - 1 in
    let half : k / 2 ≡ m - 1 = omega (arith, pow_pos n) in
    let odd : k % 2 ≡ 1 = omega (arith, pow_pos n) in
    let step : bit_and x k ≡ x % (m * 2) =
      (bit_and_halves x k
        ∙ ap (λ (t : ℕ). bit_and (x / 2) t * 2 + min (x % 2) (k % 2)) half
        ∙ ap (λ (t : ℕ). bit_and (x / 2) (m - 1) * 2 + min (x % 2) t) odd
        ∙ omega (arith, bit_and_ones n (x / 2), min_bit x)
        ∙ sym (mod_halves x m (pow_pos n))) in
    let power : 2 ^ suc n ≡ m * 2 = omega arith in
    subst (λ p. bit_and x (p - 1) ≡ x % p) (sym power) step
