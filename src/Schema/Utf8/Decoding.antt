-- ===== src/Schema/Utf8/Decoding.antt =====
-- The decoder reads back exactly what `str.encode` writes.
use Prim.Native.Char.{Char, code}
use mathlib.Core.Option
use danube_py.Prelude.{
  ℕ, suc, ◌+◌, ◌*◌, ◌≤◌, ◌<◌, ◌/◌, ◌%◌, String, Option, none, some, List, ◌∷◌, ◌++◌, Bool-cases,
  inl, inr, ltb, ltb→lt, ltb→ge, ◌≡◌, refl, ap, ◌∙◌, arith,
}
use danube_py.Router.Encoding.{encode_code, encode}
use danube_py.Schema.Utf8.{State, between, awaiting, read_byte, put_char, decode_from, decode}
use danube_py.Schema.Utf8.Characters.{character-code, code_range}

pub step :
    (st next : State) (b : ℕ) (out : Option Char) (bytes : List ℕ)
    → read_byte st b ≡ some (next, out)
    → decode_from st (b ∷ bytes) ≡ Option.map (put_char out) (decode_from next bytes)
unfolding decode_from
step between next b out bytes h = rw (decode_from, h) refl
step (awaiting more acc least) next b out bytes h = rw (decode_from, h) refl

map_id : (o : Option String) → Option.map (put_char none) o ≡ o
map_id none = refl
map_id (some s) = refl

quiet_step :
    (st next : State) (b : ℕ) (bytes : List ℕ)
    → read_byte st b ≡ some (next, none)
    → decode_from st (b ∷ bytes) ≡ decode_from next bytes
quiet_step st next b bytes h = step st next b none bytes h ∙ map_id (decode_from next bytes)

first_of_one : (c : Char) → code c < 0x80 → read_byte between (code c) ≡ some (between, some c)
unfolding read_byte
first_of_one c h = ground (arith, character-code c)

first_of_two : (n : ℕ) → n < 0x20 → read_byte between (0xC0 + n) ≡ some (awaiting 0 n 0x80, none)
unfolding read_byte
first_of_two n h = ground arith

first_of_three : (n : ℕ) → n < 0x10 → read_byte between (0xE0 + n) ≡ some (awaiting 1 n 0x800, none)
unfolding read_byte
first_of_three n h = ground arith

first_of_four : (n : ℕ) → n < 8 → read_byte between (0xF0 + n) ≡ some (awaiting 2 n 0x10000, none)
unfolding read_byte
first_of_four n h = ground arith

middle :
    (more acc least n : ℕ)
    → n < 0x40
    → read_byte (awaiting (suc more) acc least) (0x80 + n)
      ≡ some (awaiting more (acc * 0x40 + n) least, none)
unfolding read_byte
middle more acc least n h = ground arith

last :
    (acc least n : ℕ) (c : Char)
    → n < 0x40
    → acc * 0x40 + n ≡ code c
    → least ≤ code c
    → read_byte (awaiting 0 acc least) (0x80 + n) ≡ some (between, some c)
unfolding read_byte
last acc least n c h e k = ground (arith, character-code c)

-- A character of each length.
two_bytes :
    (c : Char) (bytes : List ℕ)
    → 0x80 ≤ code c
    → code c < 0x800
    → decode_from between ((0xC0 + code c / 0x40) ∷ (0x80 + code c % 0x40) ∷ bytes)
      ≡ Option.map (put_char (some c)) (decode_from between bytes)
two_bytes c bytes l h =
    let n = code c in
    quiet_step between (awaiting 0 (n / 0x40) 0x80) _ _ (first_of_two (n / 0x40) (omega arith))
    ∙ step (awaiting 0 (n / 0x40) 0x80) between _ (some c) bytes
        (last (n / 0x40) 0x80 (n % 0x40) c (omega arith) (omega arith) l)

three_bytes :
    (c : Char) (bytes : List ℕ)
    → 0x800 ≤ code c
    → code c < 0x10000
    → decode_from between
        ((0xE0 + code c / 0x1000) ∷ (0x80 + code c / 0x40 % 0x40) ∷ (0x80 + code c % 0x40) ∷ bytes)
      ≡ Option.map (put_char (some c)) (decode_from between bytes)
three_bytes c bytes l h =
    let n = code c in
    let a = n / 0x1000 in
    let b = a * 0x40 + n / 0x40 % 0x40 in
    quiet_step between (awaiting 1 a 0x800) _ _ (first_of_three a (omega arith))
    ∙ quiet_step (awaiting 1 a 0x800) (awaiting 0 b 0x800) _ _
        (middle 0 a 0x800 (n / 0x40 % 0x40) (omega arith))
    ∙ step (awaiting 0 b 0x800) between _ (some c) bytes
        (last b 0x800 (n % 0x40) c (omega arith) (omega arith) l)

four_bytes :
    (c : Char) (bytes : List ℕ)
    → 0x10000 ≤ code c
    → decode_from between (
        (0xF0 + code c / 0x40000)
        ∷ (0x80 + code c / 0x1000 % 0x40)
        ∷ (0x80 + code c / 0x40 % 0x40)
        ∷ (0x80 + code c % 0x40)
        ∷ bytes)
      ≡ Option.map (put_char (some c)) (decode_from between bytes)
four_bytes c bytes l =
    let n = code c in
    let a = n / 0x40000 in
    let b = a * 0x40 + n / 0x1000 % 0x40 in
    let d = b * 0x40 + n / 0x40 % 0x40 in
    quiet_step between (awaiting 2 a 0x10000) _ _ (first_of_four a (below c))
    ∙ quiet_step (awaiting 2 a 0x10000) (awaiting 1 b 0x10000) _ _
        (middle 1 a 0x10000 (n / 0x1000 % 0x40) (omega arith))
    ∙ quiet_step (awaiting 1 b 0x10000) (awaiting 0 d 0x10000) _ _
        (middle 0 b 0x10000 (n / 0x40 % 0x40) (omega arith))
    ∙ step (awaiting 0 d 0x10000) between _ (some c) bytes
        (last d 0x10000 (n % 0x40) c (omega arith) (omega arith) l)
  where
    below : (c : Char) → code c / 0x40000 < 8
    below c = elim (code_range c) [ inl h ↦ omega arith | inr (l, h) ↦ omega arith ]

decode_char :
    (c : Char) (bytes : List ℕ)
    → decode_from between (encode_code (code c) ++ bytes)
      ≡ Option.map (put_char (some c)) (decode_from between bytes)
unfolding encode_code
decode_char c bytes =
    let n = code c in
    elim (Bool-cases (ltb n 0x80)) [
      | inl one ↦ rw one (step between between n (some c) bytes (first_of_one c (ltb→lt _ _ one)))
      | inr more ↦ elim (Bool-cases (ltb n 0x800)) [
        | inl two ↦ rw (more, two) (two_bytes c bytes (ltb→ge _ _ more) (ltb→lt _ _ two))
        | inr longer ↦ elim (Bool-cases (ltb n 0x10000)) [
          | inl three ↦
              rw (more, longer, three) (three_bytes c bytes (ltb→ge _ _ longer) (ltb→lt _ _ three))
          | inr four ↦ rw (more, longer, four) (four_bytes c bytes (ltb→ge _ _ four))
        ]
      ]
    ]

-- The decoder reads back what the encoder writes.
pub decode-encode : (s : String) → decode (encode s) ≡ some s
unfolding decode encode
decode-encode String.[] = unfold decode_from in refl
decode-encode (String.◌∷◌ c s) =
    decode_char c (encode s) ∙ ap (Option.map (put_char (some c))) (decode-encode s)
