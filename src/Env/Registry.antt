-- ===== src/Env/Registry.antt =====
-- The messages of danube/proto/SchemaRegistry.proto.
use danube_py.Prelude.{ℕ, String, Bool, Option, List}
use danube_py.Env.Api.{Bytes}

pub record GetSchemaRequest : Type 0 where
  pub schema_id : ℕ
  pub version : Option ℕ

pub record GetLatestSchemaRequest : Type 0 where
  pub subject : String

pub record GetSchemaResponse : Type 0 where
  pub schema_id : ℕ
  pub version : ℕ
  pub subject : String
  pub schema_type : String
  pub schema_definition : Bytes
  pub description : String
  pub created_at : ℕ
  pub created_by : String
  pub tags : List String
  pub fingerprint : String
  pub compatibility_mode : String

pub record RegisterSchemaRequest : Type 0 where
  pub subject : String
  pub schema_type : String
  pub schema_definition : Bytes
  pub description : String
  pub created_by : String
  pub tags : List String

pub record RegisterSchemaResponse : Type 0 where
  pub schema_id : ℕ
  pub version : ℕ
  pub is_new_version : Bool
  pub fingerprint : String

pub record ListVersionsRequest : Type 0 where
  pub subject : String

pub record SchemaVersionInfo : Type 0 where
  pub version : ℕ
  pub created_at : ℕ
  pub created_by : String
  pub description : String
  pub fingerprint : String
  pub schema_id : ℕ

pub record ListVersionsResponse : Type 0 where
  pub versions : List SchemaVersionInfo

pub record CheckCompatibilityRequest : Type 0 where
  pub subject : String
  pub new_schema_definition : Bytes
  pub schema_type : String
  pub compatibility_mode : Option String

pub record CheckCompatibilityResponse : Type 0 where
  pub is_compatible : Bool
  pub errors : List String

pub record DeleteSchemaVersionRequest : Type 0 where
  pub subject : String
  pub version : ℕ

pub record DeleteSchemaVersionResponse : Type 0 where
  pub success : Bool
  pub message : String

pub record SetCompatibilityModeRequest : Type 0 where
  pub subject : String
  pub compatibility_mode : String

pub record SetCompatibilityModeResponse : Type 0 where
  pub success : Bool
  pub message : String

pub record ConfigureTopicSchemaRequest : Type 0 where
  pub topic_name : String
  pub schema_subject : String
  pub validation_policy : String
  pub enable_payload_validation : Bool

pub record ConfigureTopicSchemaResponse : Type 0 where
  pub success : Bool
  pub message : String

pub record UpdateTopicValidationPolicyRequest : Type 0 where
  pub topic_name : String
  pub validation_policy : String
  pub enable_payload_validation : Bool

pub record UpdateTopicValidationPolicyResponse : Type 0 where
  pub success : Bool
  pub message : String

pub record GetTopicSchemaConfigRequest : Type 0 where
  pub topic_name : String

pub record GetTopicSchemaConfigResponse : Type 0 where
  pub schema_subject : String
  pub validation_policy : String
  pub enable_payload_validation : Bool
  pub schema_id : ℕ
