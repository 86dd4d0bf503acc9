-- ===== src/Schema.antt =====
-- danube/schema.py: the types of schemas and the modes of compatibility.
pub mod Names
pub mod Utf8
use Prim.Native.Char.{code}
use danube_py.Prelude.{
  ℕ, ◌+◌, String, ◌<>◌, Bool, true, false, ◌&&◌, ◌||◌, ltb, leb, ◌==◌, if◌then◌else◌,
}
use danube_py.Errors.{Result, ok, err, value_error}

pub data CompatibilityMode : Type 0 where
  none backward forward full : CompatibilityMode

pub data SchemaType : Type 0 where
  bytes string number avro json_schema protobuf : SchemaType

-- `str.lower` on a code point. Besides the capitals of ASCII one character has a lower-case form in
-- ASCII, the sign for kelvin; what becomes of the others does not matter to a comparison with a name
-- in ASCII, since it is not in ASCII either.
abbrev pub lower_code : ℕ → ℕ
lower_code c = if leb 65 c && leb c 90 then c + 32 else if c == 0x212A then 107 else c

-- `value.lower() == name`, for a name in lower-case ASCII
unfoldable pub lower_eq : String → String → Bool
lower_eq String.[] String.[] = true
lower_eq String.[] (String.◌∷◌ d name) = false
lower_eq (String.◌∷◌ c value) String.[] = false
lower_eq (String.◌∷◌ c value) (String.◌∷◌ d name) =
    let rest = lower_eq value name in (lower_code (code c) == code d) && rest

unfoldable pub compatibility_string : CompatibilityMode → String
compatibility_string none = "none"
compatibility_string backward = "backward"
compatibility_string forward = "forward"
compatibility_string full = "full"

unfoldable pub parse_compatibility : String → Result CompatibilityMode
unfolding lower_eq
parse_compatibility value =
    if lower_eq value "none"
    then ok none
    else if lower_eq value "backward"
    then ok backward
    else if lower_eq value "forward"
    then ok forward
    else if lower_eq value "full"
    then ok full
    else err (value_error ("unknown compatibility mode: " <> value))

unfoldable pub type_string : SchemaType → String
type_string bytes = "bytes"
type_string string = "string"
type_string number = "number"
type_string avro = "avro"
type_string json_schema = "json_schema"
type_string protobuf = "protobuf"

unfoldable pub parse_type : String → Result SchemaType
unfolding lower_eq
parse_type value =
    if lower_eq value "jsonschema" || lower_eq value "json_schema"
    then ok json_schema
    else if lower_eq value "protobuf" || lower_eq value "proto"
    then ok protobuf
    else if lower_eq value "bytes"
    then ok bytes
    else if lower_eq value "string"
    then ok string
    else if lower_eq value "number"
    then ok number
    else if lower_eq value "avro"
    then ok avro
    else err (value_error ("unknown schema type: " <> value))
