-- ===== src/Schema/Utf8/Exact.antt =====
-- The decoder takes nothing but what `str.encode` writes: no other form of a character, no surrogate,
-- no byte out of place and no end within a character.
use Prim.Native.Char.{Char, code}
use mathlib.Core.Option
use mathlib.Core.List.{append_assoc}
use danube_py.Prelude.{
  ℕ, zero, suc, ◌+◌, ◌-◌, ◌*◌, ◌≤◌, ◌<◌, String, true, Option, none, some, List, [], ◌∷◌, ◌++◌,
  length, Bool-cases, Option-cases, inl, inr, ltb, ltb→lt, ltb→ge, leb, ◌≡◌, refl, sym, ap, ◌∙◌,
  arith, ◌↔◌, subst,
}
use danube_py.Router.Encoding.{encode_code, encode}
use danube_py.Schema.Utf8.{
  State, between, awaiting, continues, complete, read_byte, put_char, decode_from, decode,
}
use danube_py.Schema.Utf8.Characters.{character, code-character}
use danube_py.Schema.Utf8.Decoding.{step, decode-encode}

abbrev AllContinue : List ℕ → Type 0
AllContinue [] = Unit
AllContinue (x ∷ xs) = (continues x ≡ true) × AllContinue xs

abbrev value : ℕ → List ℕ → ℕ
value acc [] = acc
value acc (x ∷ xs) = value (acc * 0x40 + (x - 0x80)) xs

-- The bytes `front` have been read since the last character: with the bytes that are still to come
-- they will be the form of the character that they make up, if it is not too small for this length.
abbrev Started : State → List ℕ → Type 0
Started between front = front ≡ []
Started (awaiting more acc least) front =
    (xs : List ℕ)
    → length xs ≡ suc more
    → AllContinue xs
    → least ≤ value acc xs
    → encode_code (value acc xs) ≡ front ++ xs

abbrev Reads : State → Option Char → List ℕ → Type 0
Reads next none front = Started next front
Reads next (some c) front = (next ≡ between) × (encode_code (code c) ≡ front)

Started-two : (b : ℕ) → 0xC0 ≤ b → b < 0xE0 → Started (awaiting 0 (b - 0xC0) 0x80) (b ∷ [])
unfolding encode_code
Started-two b l h [] e a v = absurd (omega arith)
Started-two b l h (x ∷ []) e a v = ground arith
Started-two b l h (x ∷ y ∷ xs) e a v = absurd (omega arith)

Started-three : (b : ℕ) → 0xE0 ≤ b → b < 0xF0 → Started (awaiting 1 (b - 0xE0) 0x800) (b ∷ [])
unfolding encode_code
Started-three b l h [] e a v = absurd (omega arith)
Started-three b l h (x ∷ []) e a v = absurd (omega arith)
Started-three b l h (x ∷ y ∷ []) e a v = ground arith
Started-three b l h (x ∷ y ∷ z ∷ xs) e a v = absurd (omega arith)

Started-four : (b : ℕ) → 0xF0 ≤ b → b < 0xF8 → Started (awaiting 2 (b - 0xF0) 0x10000) (b ∷ [])
unfolding encode_code
Started-four b l h [] e a v = absurd (omega arith)
Started-four b l h (x ∷ []) e a v = absurd (omega arith)
Started-four b l h (x ∷ y ∷ []) e a v = absurd (omega arith)
Started-four b l h (x ∷ y ∷ z ∷ []) e a v = ground arith
Started-four b l h (x ∷ y ∷ z ∷ u ∷ xs) e a v = absurd (omega arith)

Started-next :
    (more acc least b : ℕ) (front : List ℕ)
    → continues b ≡ true
    → Started (awaiting (suc more) acc least) front
    → Started (awaiting more (acc * 0x40 + (b - 0x80)) least) (front ++ (b ∷ []))
Started-next more acc least b front c st xs e a v =
    st (b ∷ xs) (ap suc e) (c, a) v ∙ sym (append_assoc front (b ∷ []) xs)

abbrev ReadsTo : Option (State × Option Char) → List ℕ → Type 0
ReadsTo none front = Unit
ReadsTo (some (next, out)) front = Reads next out front

character-ReadsTo :
    (n : ℕ) (front : List ℕ)
    → encode_code n ≡ front
    → ReadsTo (Option.map (λ c. (between, some c)) (character n)) front
character-ReadsTo n front h = elim (Option-cases (character n)) [
  | inl e ↦ rw e tt
  | inr (c, e) ↦ rw e (refl, ap encode_code (code-character n c e) ∙ h)
]

complete-ReadsTo :
    (least n : ℕ) (front : List ℕ)
    → (least ≤ n → encode_code n ≡ front)
    → ReadsTo (complete least n) front
complete-ReadsTo least n front h = elim (Bool-cases (leb least n)) [
  | inl e ↦ rw e (character-ReadsTo n front (h (ground arith)))
  | inr e ↦ rw e tt
]

encode_ascii : (b : ℕ) → b < 0x80 → encode_code b ≡ b ∷ []
unfolding encode_code
encode_ascii b h = ground arith

first_byte-ReadsTo : (b : ℕ) → ReadsTo (read_byte between b) (b ∷ [])
unfolding read_byte
first_byte-ReadsTo b = elim (Bool-cases (ltb b 0x80)) [
  | inl one ↦ rw one (character-ReadsTo b (b ∷ []) (encode_ascii b (ltb→lt _ _ one)))
  | inr more ↦ elim (Bool-cases (ltb b 0xC0)) [
    | inl stray ↦ rw (more, stray) tt
    | inr lead ↦ elim (Bool-cases (ltb b 0xE0)) [
      | inl two ↦ rw (more, lead, two) (Started-two b (ltb→ge _ _ lead) (ltb→lt _ _ two))
      | inr longer ↦ elim (Bool-cases (ltb b 0xF0)) [
        | inl three ↦
            rw (more, lead, longer, three) (Started-three b (ltb→ge _ _ longer) (ltb→lt _ _ three))
        | inr longest ↦ elim (Bool-cases (ltb b 0xF8)) [
          | inl four ↦
              rw (more, lead, longer, longest, four)
                (Started-four b (ltb→ge _ _ longest) (ltb→lt _ _ four))
          | inr bad ↦ rw (more, lead, longer, longest, bad) tt
        ]
      ]
    ]
  ]
]

read_byte-ReadsTo :
    (st : State) (b : ℕ) (front : List ℕ)
    → Started st front
    → ReadsTo (read_byte st b) (front ++ (b ∷ []))
read_byte-ReadsTo between b front st =
    subst (λ f. ReadsTo (read_byte between b) (f ++ (b ∷ []))) (sym st) (first_byte-ReadsTo b)
read_byte-ReadsTo (awaiting zero acc least) b front st =
    unfold read_byte in
    elim (Bool-cases (continues b)) [
      | inl c ↦
          rw c (complete-ReadsTo least _ (front ++ (b ∷ [])) (λ l. st (b ∷ []) refl (c, tt) l))
      | inr e ↦ rw e tt
    ]
read_byte-ReadsTo (awaiting (suc more) acc least) b front st =
    unfold read_byte in
    elim (Bool-cases (continues b)) [
      | inl c ↦ rw c (Started-next more acc least b front c st)
      | inr e ↦ rw e tt
    ]

abbrev Encodes : Option String → List ℕ → Type 0
Encodes none bytes = Unit
Encodes (some s) bytes = encode s ≡ bytes

refused :
    (st : State) (b : ℕ) (bytes : List ℕ)
    → read_byte st b ≡ none
    → decode_from st (b ∷ bytes) ≡ none
unfolding decode_from
refused between b bytes h = rw (decode_from, h) refl
refused (awaiting more acc least) b bytes h = rw (decode_from, h) refl

put_char-Encodes :
    (c : Char) (o : Option String) (front bytes : List ℕ)
    → encode_code (code c) ≡ front
    → Encodes o bytes
    → Encodes (Option.map (put_char (some c)) o) (front ++ bytes)
unfolding encode
put_char-Encodes c none front bytes h e = tt
put_char-Encodes c (some s) front bytes h e = rw (h, e) refl

put_none-Encodes :
    (o : Option String) (bytes : List ℕ)
    → Encodes o bytes
    → Encodes (Option.map (put_char none) o) bytes
put_none-Encodes none bytes h = tt
put_none-Encodes (some s) bytes h = h

emit-Encodes :
    (next : State) (out : Option Char) (b : ℕ) (front bytes : List ℕ)
    → Reads next out (front ++ (b ∷ []))
    → ((front : List ℕ) → Started next front → Encodes (decode_from next bytes) (front ++ bytes))
    → Encodes (Option.map (put_char out) (decode_from next bytes)) (front ++ (b ∷ bytes))
emit-Encodes next none b front bytes r ih =
    put_none-Encodes (decode_from next bytes) (front ++ (b ∷ bytes)) (
      subst (Encodes (decode_from next bytes)) (append_assoc front (b ∷ []) bytes)
        (ih (front ++ (b ∷ [])) r))
emit-Encodes next (some c) b front bytes r ih =
    subst (Encodes (Option.map (put_char (some c)) (decode_from next bytes)))
      (append_assoc front (b ∷ []) bytes)
      (put_char-Encodes c (decode_from next bytes) (front ++ (b ∷ [])) bytes r.1
        (ih [] (subst (λ st. Started st []) (sym r.0) refl)))

decode_from-Encodes :
    (bytes : List ℕ) (st : State) (front : List ℕ)
    → Started st front
    → Encodes (decode_from st bytes) (front ++ bytes)
decode_from-Encodes [] between front h = unfold decode_from encode in rw h refl
decode_from-Encodes [] (awaiting more acc least) front h = unfold decode_from in tt
decode_from-Encodes (b ∷ bytes) st front h = elim (Option-cases (read_byte st b)) [
  | inl e ↦ rw (refused st b bytes e) tt
  | inr ((next, out), e) ↦ rw (step st next b out bytes e) (
      emit-Encodes next out b front bytes
        (subst (λ o. ReadsTo o (front ++ (b ∷ []))) e (read_byte-ReadsTo st b front h))
        (decode_from-Encodes bytes next))
]

of_some :
    (o : Option String) (s : String) (bytes : List ℕ)
    → Encodes o bytes
    → o ≡ some s
    → encode s ≡ bytes
of_some o s bytes h e = subst (λ o. Encodes o bytes) e h

-- Bytes are decoded to a text exactly if they are what the encoder writes for this text.
pub decode_iff : (bytes : List ℕ) (s : String) → (decode bytes ≡ some s) ↔ (encode s ≡ bytes)
unfolding decode
decode_iff bytes s = (
  of_some (decode bytes) s bytes (decode_from-Encodes bytes between [] refl),
  λ e. subst (λ b. decode b ≡ some s) e (decode-encode s),
)
