-- ===== src/Schema/Names.antt =====
-- Parsing the names of schema types and compatibility modes.
use danube_py.Prelude.{◌≡◌, refl}
use danube_py.Errors.{ok}
use danube_py.Schema.{
  CompatibilityMode, none, backward, forward, full, SchemaType, bytes, string, number, avro,
  json_schema, protobuf, compatibility_string, parse_compatibility, type_string, parse_type,
}

parse_compatibility-compatibility_string :
    (mode : CompatibilityMode) → parse_compatibility (compatibility_string mode) ≡ ok mode
unfolding parse_compatibility compatibility_string
parse_compatibility-compatibility_string none = refl
parse_compatibility-compatibility_string backward = refl
parse_compatibility-compatibility_string forward = refl
parse_compatibility-compatibility_string full = refl

parse_type-type_string :
    (schema_type : SchemaType) → parse_type (type_string schema_type) ≡ ok schema_type
unfolding parse_type type_string
parse_type-type_string bytes = refl
parse_type-type_string string = refl
parse_type-type_string number = refl
parse_type-type_string avro = refl
parse_type-type_string json_schema = refl
parse_type-type_string protobuf = refl

-- The name of every compatibility mode is parsed to this mode, and the name of every schema type to this
-- type.
pub parse_names :
    ((mode : CompatibilityMode) → parse_compatibility (compatibility_string mode) ≡ ok mode)
    × ((schema_type : SchemaType) → parse_type (type_string schema_type) ≡ ok schema_type)
parse_names = (parse_compatibility-compatibility_string, parse_type-type_string)
