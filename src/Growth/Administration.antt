-- ===== src/Growth/Administration.antt =====
-- The calls that look after the schema registry.
use danube_py.Prelude.{ℕ, String, Bool, Option, none, some, [], ◌∷◌}
use danube_py.Exec.Steps.{Steps}
use danube_py.Env.{Env}
use danube_py.Env.Api.{Bytes}
use danube_py.Schema.{SchemaType, CompatibilityMode}
use danube_py.Registry.Admin.{
  list_versions, check_compatibility, set_compatibility_mode, delete_schema_version,
  configure_topic_schema, update_topic_validation_policy, get_topic_schema_config,
}
use danube_py.Registry.Registration.{SchemaRegistrationBuilder, execute_with, execute}
use danube_py.Connection.Growth.{Grows}
use danube_py.Growth.{client_rules, prepare-Grows}

module _ {E : Env} where
  pub list_versions-Grows : (subject : String) → Steps (Grows {E = E}) (list_versions subject)
  unfolding list_versions
  list_versions-Grows subject = search (client_rules, prepare-Grows) depth 7

  pub check_compatibility-Grows :
      (subject : String) (schema_data : Bytes) (schema_type : SchemaType)
      (mode : Option CompatibilityMode)
      → Steps (Grows {E = E}) (check_compatibility subject schema_data schema_type mode)
  unfolding check_compatibility
  check_compatibility-Grows subject schema_data schema_type mode =
      search (client_rules, prepare-Grows) depth 7

  pub set_compatibility_mode-Grows :
      (subject : String) (mode : CompatibilityMode)
      → Steps (Grows {E = E}) (set_compatibility_mode subject mode)
  unfolding set_compatibility_mode
  set_compatibility_mode-Grows subject mode = search (client_rules, prepare-Grows) depth 7

  pub delete_schema_version-Grows :
      (subject : String) (version : ℕ)
      → Steps (Grows {E = E}) (delete_schema_version subject version)
  unfolding delete_schema_version
  delete_schema_version-Grows subject version = search (client_rules, prepare-Grows) depth 7

  pub configure_topic_schema-Grows :
      (topic_name schema_subject validation_policy : String) (enable_payload_validation : Bool)
      → Steps (Grows {E = E}) (
          configure_topic_schema topic_name schema_subject validation_policy
            enable_payload_validation)
  unfolding configure_topic_schema
  configure_topic_schema-Grows topic_name schema_subject validation_policy
        enable_payload_validation =
      search (client_rules, prepare-Grows) depth 7

  pub update_topic_validation_policy-Grows :
      (topic_name validation_policy : String) (enable_payload_validation : Bool)
      → Steps
          (Grows {E = E})
          (update_topic_validation_policy topic_name validation_policy enable_payload_validation)
  unfolding update_topic_validation_policy
  update_topic_validation_policy-Grows topic_name validation_policy enable_payload_validation =
      search (client_rules, prepare-Grows) depth 7

  pub get_topic_schema_config-Grows :
      (topic_name : String) → Steps (Grows {E = E}) (get_topic_schema_config topic_name)
  unfolding get_topic_schema_config
  get_topic_schema_config-Grows topic_name = search (client_rules, prepare-Grows) depth 7

  execute_with-Grows :
      (schema_type : Option SchemaType) (schema_data : Bytes) (b : SchemaRegistrationBuilder)
      → Steps (Grows {E = E}) (execute_with schema_type schema_data b)
  unfolding execute_with
  execute_with-Grows none schema_data b = search client_rules
  execute_with-Grows (some schema_type) [] b = search client_rules
  execute_with-Grows (some schema_type) (byte ∷ schema_data) b =
      search (client_rules, prepare-Grows) depth 7

  pub execute-Grows : (b : SchemaRegistrationBuilder) → Steps (Grows {E = E}) (execute b)
  unfolding execute
  execute-Grows b = execute_with-Grows b.schema_type b.schema_data b
