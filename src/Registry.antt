-- ===== src/Registry.antt =====
-- danube/schema_registry_client.py: the queries that a producer makes.
pub mod Admin
pub mod Registration
pub mod Definition
use danube_py.Prelude.{ℕ, String, Option, none, some}
use danube_py.Errors.{Result, ok, err, unicode_decode_error}
use danube_py.Schema.Utf8.{decode}
use danube_py.Exec.{Exec, pure, gets, ◌>>=◌}
use danube_py.Env.{Env, Metadata}
use danube_py.Env.Api.{Bytes}
use danube_py.Env.Registry.{GetSchemaResponse}
use danube_py.Client.{Client, outside}
use danube_py.Connection.{get_connection}
use danube_py.Auth.{attach_token_if_needed}

-- danube/schema.py
pub record SchemaInfo : Type 0 where
  pub schema_id : ℕ
  pub subject : String
  pub version : ℕ
  pub schema_type : String
  pub schema_definition : Bytes
  pub fingerprint : String

abbrev text_of : Option String → Result String
text_of none = err unicode_decode_error
text_of (some s) = ok s

unfoldable pub schema_definition_as_string : SchemaInfo → Result String
unfolding decode
schema_definition_as_string info = text_of (decode info.schema_definition)

unfoldable pub schema_info_from_proto : GetSchemaResponse → SchemaInfo
schema_info_from_proto resp = record {
  schema_id = resp.schema_id;
  subject = resp.subject;
  version = resp.version;
  schema_type = resp.schema_type;
  schema_definition = resp.schema_definition;
  fingerprint = resp.fingerprint;
}

module _ {E : Env} where
  -- A stub is its channel. The registry client was made with the address of the Danube client.
  unfoldable pub prepare : String → Exec (Client E) (Metadata × E.Channel)
  unfolding ◌>>=◌ pure get_connection attach_token_if_needed
  prepare addr = do
    conn ← get_connection addr addr
    metadata ← attach_token_if_needed addr
    pure (metadata, conn.channel)

  unfoldable pub get_schema_version : ℕ → Option ℕ → Exec (Client E) SchemaInfo
  unfolding ◌>>=◌ pure gets outside prepare schema_info_from_proto
  get_schema_version schema_id version = do
    uri ← gets λ c. c.uri
    prepared ← prepare uri
    resp ←
        outside
          (E.get_schema prepared.1 (record { schema_id = schema_id; version = version }) prepared.0)
    pure (schema_info_from_proto resp)

  unfoldable pub get_schema_by_id : ℕ → Exec (Client E) SchemaInfo
  unfolding get_schema_version
  get_schema_by_id schema_id = get_schema_version schema_id none

  unfoldable pub get_latest_schema : String → Exec (Client E) SchemaInfo
  unfolding ◌>>=◌ pure gets outside prepare schema_info_from_proto
  get_latest_schema subject = do
    uri ← gets λ c. c.uri
    prepared ← prepare uri
    resp ← outside (E.get_latest_schema prepared.1 (record { subject = subject }) prepared.0)
    pure (schema_info_from_proto resp)
