-- ===== src/Schema/Utf8.antt =====
-- Python's `bytes.decode("utf-8")`, strict: a text, or none where Python raises an error.
pub mod Characters
pub mod Decoding
pub mod Exact
use Prim.Native.Char.{Char}
use Prim.Native.String.{◌∷◌ as add_char}
use mathlib.Core.Option
use danube_py.Prelude.{
  ℕ, zero, suc, ◌+◌, ◌-◌, ◌*◌, String, Bool, ◌&&◌, Option, none, some, List, [], ◌∷◌, ltb, leb,
  if◌then◌else◌,
}
use Characters.{character}

-- Where the decoder stands: between two characters, or inside one. `awaiting more acc least` has read
-- bytes that make up `acc`; after the next byte `more` others follow, and the shortest form of the
-- character has this length only from `least` on.
pub data State : Type 0 where
  between : State
  awaiting : (more acc least : ℕ) → State

-- The first byte of a character.
abbrev pub first_byte : ℕ → Option (State × Option Char)
first_byte b =
    if ltb b 0x80
    then Option.map (λ c. (between, some c)) (character b)
    else if ltb b 0xC0
    then none
    else if ltb b 0xE0
    then some (awaiting 0 (b - 0xC0) 0x80, none)
    else if ltb b 0xF0
    then some (awaiting 1 (b - 0xE0) 0x800, none)
    else if ltb b 0xF8
    then some (awaiting 2 (b - 0xF0) 0x10000, none)
    else none

abbrev pub continues : ℕ → Bool
continues b = leb 0x80 b && ltb b 0xC0

-- The last byte of the character `code`.
abbrev pub complete : ℕ → ℕ → Option (State × Option Char)
complete least code =
    if leb least code then Option.map (λ c. (between, some c)) (character code) else none

unfoldable pub read_byte : State → ℕ → Option (State × Option Char)
unfolding character
read_byte between b = first_byte b
read_byte (awaiting zero acc least) b =
    if continues b then complete least (acc * 0x40 + (b - 0x80)) else none
read_byte (awaiting (suc more) acc least) b =
    if continues b then some (awaiting more (acc * 0x40 + (b - 0x80)) least, none) else none

abbrev pub put_char : Option Char → String → String
put_char none s = s
put_char (some c) s = String.◌∷◌ c s

unfoldable pub decode_from : State → List ℕ → Option String
unfolding read_byte
decode_from between [] = some String.[]
decode_from (awaiting more acc least) [] = none
decode_from st (b ∷ bytes) = elim (read_byte st b) [
  | none ↦ none
  | some (next, out) ↦ Option.map (put_char out) (decode_from next bytes)
]

unfoldable pub decode : List ℕ → Option String
unfolding decode_from
decode bytes = decode_from between bytes
