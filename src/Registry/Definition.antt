-- ===== src/Registry/Definition.antt =====
-- `SchemaInfo.schema_definition_as_string` on the definitions that a program registers, and on others.
use danube_py.Prelude.{String, Option-cases, ◌≡◌, ◌≢◌, refl, ◌⊎◌, inl, inr}
use danube_py.Errors.{ok, err, unicode_decode_error}
use danube_py.Router.Encoding.{encode}
use danube_py.Schema.Utf8.{decode}
use danube_py.Schema.Utf8.Exact.{decode_iff}
use danube_py.Registry.{SchemaInfo, schema_definition_as_string}

-- The call returns the text whose UTF-8 bytes are the definition, and raises if no text has these bytes:
-- one of the two holds of every schema.
pub schema_definition_as_string_lem :
    (info : SchemaInfo)
    → ((s : String) × (encode s ≡ info.schema_definition)
        × (schema_definition_as_string info ≡ ok s))
      ⊎ (((s : String) → encode s ≢ info.schema_definition)
          × (schema_definition_as_string info ≡ err unicode_decode_error))
unfolding schema_definition_as_string
schema_definition_as_string_lem info = elim (Option-cases (decode info.schema_definition)) [
  | inl e ↦ inr (λ s h. cc (e, (decode_iff info.schema_definition s).1 h), rw e refl)
  | inr (s, e) ↦ inl (s, (decode_iff info.schema_definition s).0 e, rw e refl)
]
