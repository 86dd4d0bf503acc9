-- ===== src/Registry/Registration.antt =====
-- `SchemaRegistrationBuilder`
use danube_py.Prelude.{ℕ, String, Option, none, some, List, [], ◌∷◌, str_eq, if◌then◌else◌}
use danube_py.Errors.{value_error}
use danube_py.Exec.{Exec, pure, raise, gets, ◌>>=◌}
use danube_py.Env.{Env}
use danube_py.Env.Api.{Bytes}
use danube_py.Client.{Client, outside}
use danube_py.Schema.{SchemaType, type_string}
use danube_py.Registry.{prepare}

-- The registry client is the one that the builder was made by.
pub record SchemaRegistrationBuilder : Type 0 where
  pub subject : String
  pub schema_type : Option SchemaType
  pub schema_data : Bytes
  pub description : String
  pub created_by : String
  pub tags : List String

unfoldable pub register_schema : String → SchemaRegistrationBuilder
register_schema subject = record {
  subject = subject;
  schema_type = none;
  schema_data = [];
  description = "";
  created_by = "";
  tags = [];
}

unfoldable pub with_type : SchemaType → SchemaRegistrationBuilder → SchemaRegistrationBuilder
with_type schema_type b = record b { schema_type = some schema_type }

unfoldable pub with_schema_data : Bytes → SchemaRegistrationBuilder → SchemaRegistrationBuilder
with_schema_data schema_data b = record b { schema_data = schema_data }

unfoldable pub with_description : String → SchemaRegistrationBuilder → SchemaRegistrationBuilder
with_description description b = record b { description = description }

unfoldable pub with_created_by : String → SchemaRegistrationBuilder → SchemaRegistrationBuilder
with_created_by created_by b = record b { created_by = created_by }

unfoldable pub with_tags : List String → SchemaRegistrationBuilder → SchemaRegistrationBuilder
with_tags tags b = record b { tags = tags }

abbrev pub creator : String → String
creator created_by = if str_eq created_by "" then "danube-py" else created_by

module _ {E : Env} where
  unfoldable pub execute_with :
      Option SchemaType → Bytes → SchemaRegistrationBuilder → Exec (Client E) ℕ
  unfolding ◌>>=◌ pure raise gets outside prepare type_string
  execute_with none schema_data b = raise (value_error "schema type is required")
  execute_with (some schema_type) [] b = raise (value_error "schema data is required")
  execute_with (some schema_type) (byte ∷ schema_data) b = do
    uri ← gets λ c. c.uri
    prepared ← prepare uri
    resp ← outside (
        E.register_schema prepared.1
          (record {
            subject = b.subject;
            schema_type = type_string schema_type;
            schema_definition = byte ∷ schema_data;
            description = b.description;
            created_by = creator b.created_by;
            tags = b.tags;
          })
          prepared.0)
    pure resp.schema_id

  unfoldable pub execute : SchemaRegistrationBuilder → Exec (Client E) ℕ
  unfolding execute_with
  execute b = execute_with b.schema_type b.schema_data b
