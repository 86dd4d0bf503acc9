-- ===== src/Schema/Utf8/Characters.antt =====
-- The character of a code point.
use Prim.Native.Char.{Char, char, code, IsScalar}
use text.Mathlib.TextEquality.{Char-path}
use native.Mathlib.Decide.{dec_lt}
use danube_py.Prelude.{ℕ, ◌<◌, Option, none, some, ◌≡◌, refl, arith, ap, ◌⊎◌, inl, inr, ◌∙◌}

pub IsScalar-below : (n : ℕ) → n < 0xD800 → IsScalar n
IsScalar-below n h = ground arith

pub IsScalar-above : (n : ℕ) → 0xDFFF < n → n < 0x110000 → IsScalar n
IsScalar-above n h k = ground arith

abbrev pub in_range :
    (n : ℕ) → Dec (n < 0xD800) → Dec (0xDFFF < n) → Dec (n < 0x110000) → Option Char
in_range n (yes h) _ _ = some (char n (IsScalar-below n h))
in_range n (no _) (yes h) (yes k) = some (char n (IsScalar-above n h k))
in_range n (no _) (yes h) (no _) = none
in_range n (no _) (no _) _ = none

-- `chr`; the surrogates and the numbers past the last plane have no character.
unfoldable pub character : ℕ → Option Char
character n = in_range n (dec_lt n 0xD800) (dec_lt 0xDFFF n) (dec_lt n 0x110000)

pub code_range : (c : Char) → (code c < 0xD800) ⊎ ((0xDFFF < code c) × (code c < 0x110000))
code_range (char n p) = elim (dec_lt n 0xD800) [
  | yes h ↦ inl h
  | no h ↦ inr (ground arith, ground arith)
]

code-in_range :
    (n : ℕ) (a : Dec (n < 0xD800)) (b : Dec (0xDFFF < n)) (c : Dec (n < 0x110000)) (x : Char)
    → in_range n a b c ≡ some x
    → code x ≡ n
code-in_range n (yes h) b c x e = ground arith
code-in_range n (no _) (yes h) (yes k) x e = ground arith
code-in_range n (no _) (yes h) (no _) x e = cc
code-in_range n (no _) (no _) c x e = cc

in_range_some :
    (n : ℕ) (a : Dec (n < 0xD800)) (b : Dec (0xDFFF < n)) (c : Dec (n < 0x110000))
    → (n < 0xD800) ⊎ ((0xDFFF < n) × (n < 0x110000))
    → (x : Char) × (in_range n a b c ≡ some x)
in_range_some n (yes h) b c r = (char n (IsScalar-below n h), refl)
in_range_some n (no _) (yes h) (yes k) r = (char n (IsScalar-above n h k), refl)
in_range_some n (no p) (yes h) (no q) r = absurd (ground arith)
in_range_some n (no p) (no q) c r = absurd (ground arith)

pub code-character : (n : ℕ) (c : Char) → character n ≡ some c → code c ≡ n
unfolding character
code-character n c h = code-in_range n (dec_lt n 0xD800) (dec_lt 0xDFFF n) (dec_lt n 0x110000) c h

pub character-code : (c : Char) → character (code c) ≡ some c
unfolding character
character-code c =
    let n = code c in
    let (d, e) =
      in_range_some n (dec_lt n 0xD800) (dec_lt 0xDFFF n) (dec_lt n 0x110000) (code_range c) in
    e ∙ ap some (Char-path d c (code-character n d e))
