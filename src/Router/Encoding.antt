-- ===== src/Router/Encoding.antt =====
-- Python's `str.encode()`: the bytes of a text in UTF-8. A `Char` is never a surrogate, at which
-- Python would raise.
use Prim.Native.Char.{code}
use danube_py.Prelude.{ℕ, ◌+◌, ◌/◌, ◌%◌, String, List, [], ◌∷◌, ◌++◌, ltb, if◌then◌else◌}

unfoldable pub encode_code : ℕ → List ℕ
encode_code c =
    if ltb c 0x80
    then c ∷ []
    else if ltb c 0x800
    then (0xC0 + c / 0x40) ∷ (0x80 + c % 0x40) ∷ []
    else if ltb c 0x10000
    then (0xE0 + c / 0x1000) ∷ (0x80 + c / 0x40 % 0x40) ∷ (0x80 + c % 0x40) ∷ []
    else (0xF0 + c / 0x40000)
      ∷ (0x80 + c / 0x1000 % 0x40)
      ∷ (0x80 + c / 0x40 % 0x40)
      ∷ (0x80 + c % 0x40)
      ∷ []

unfoldable pub encode : String → List ℕ
unfolding encode_code
encode String.[] = []
encode (String.◌∷◌ c s) = encode_code (code c) ++ encode s
