-- ===== src/Registry/Admin.antt =====
-- The calls that look after the registry: each passes its arguments on to the broker.
use danube_py.Prelude.{ℕ, String, Bool, Option, none, some, List, map}
use danube_py.Exec.{Exec, pure, gets, ◌>>=◌}
use danube_py.Env.{Env}
use danube_py.Env.Api.{Bytes}
use danube_py.Env.Registry.{GetTopicSchemaConfigResponse}
use danube_py.Client.{Client, outside}
use danube_py.Schema.{SchemaType, CompatibilityMode, type_string, compatibility_string}
use danube_py.Registry.{prepare}

-- `mode.as_string()` if there is a mode
abbrev pub mode_string : Option CompatibilityMode → Option String
mode_string none = none
mode_string (some mode) = some (compatibility_string mode)

module _ {E : Env} where
  unfoldable pub list_versions : String → Exec (Client E) (List ℕ)
  unfolding ◌>>=◌ pure gets outside prepare
  list_versions subject = do
    uri ← gets λ c. c.uri
    prepared ← prepare uri
    resp ← outside (E.list_versions prepared.1 (record { subject = subject }) prepared.0)
    pure (map (λ v. v.version) resp.versions)

  unfoldable pub check_compatibility :
      String → Bytes → SchemaType → Option CompatibilityMode → Exec (Client E) (Bool × List String)
  unfolding ◌>>=◌ pure gets outside prepare type_string compatibility_string
  check_compatibility subject schema_data schema_type mode = do
    uri ← gets λ c. c.uri
    prepared ← prepare uri
    resp ← outside (
        E.check_compatibility prepared.1
          (record {
            subject = subject;
            new_schema_definition = schema_data;
            schema_type = type_string schema_type;
            compatibility_mode = mode_string mode;
          })
          prepared.0)
    pure (resp.is_compatible, resp.errors)

  unfoldable pub set_compatibility_mode :
      String → CompatibilityMode → Exec (Client E) (Bool × String)
  unfolding ◌>>=◌ pure gets outside prepare compatibility_string
  set_compatibility_mode subject mode = do
    uri ← gets λ c. c.uri
    prepared ← prepare uri
    resp ← outside (
        E.set_compatibility_mode prepared.1
          (record { subject = subject; compatibility_mode = compatibility_string mode }) prepared.0)
    pure (resp.success, resp.message)

  unfoldable pub delete_schema_version : String → ℕ → Exec (Client E) (Bool × String)
  unfolding ◌>>=◌ pure gets outside prepare
  delete_schema_version subject version = do
    uri ← gets λ c. c.uri
    prepared ← prepare uri
    resp ← outside (
        E.delete_schema_version prepared.1 (record { subject = subject; version = version })
          prepared.0)
    pure (resp.success, resp.message)

  unfoldable pub configure_topic_schema :
      String → String → String → Bool → Exec (Client E) (Bool × String)
  unfolding ◌>>=◌ pure gets outside prepare
  configure_topic_schema topic_name schema_subject validation_policy enable_payload_validation = do
    uri ← gets λ c. c.uri
    prepared ← prepare uri
    resp ← outside (
        E.configure_topic_schema prepared.1
          (record {
            topic_name = topic_name;
            schema_subject = schema_subject;
            validation_policy = validation_policy;
            enable_payload_validation = enable_payload_validation;
          })
          prepared.0)
    pure (resp.success, resp.message)

  unfoldable pub update_topic_validation_policy :
      String → String → Bool → Exec (Client E) (Bool × String)
  unfolding ◌>>=◌ pure gets outside prepare
  update_topic_validation_policy topic_name validation_policy enable_payload_validation = do
    uri ← gets λ c. c.uri
    prepared ← prepare uri
    resp ← outside (
        E.update_topic_validation_policy prepared.1
          (record {
            topic_name = topic_name;
            validation_policy = validation_policy;
            enable_payload_validation = enable_payload_validation;
          })
          prepared.0)
    pure (resp.success, resp.message)

  unfoldable pub get_topic_schema_config : String → Exec (Client E) GetTopicSchemaConfigResponse
  unfolding ◌>>=◌ pure gets outside prepare
  get_topic_schema_config topic_name = do
    uri ← gets λ c. c.uri
    prepared ← prepare uri
    outside (E.get_topic_schema_config prepared.1 (record { topic_name = topic_name }) prepared.0)
