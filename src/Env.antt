-- ===== src/Env.antt =====
-- What the client relies on and does not implement: gRPC's channels and calls, the broker behind
-- them, the clock, the random numbers and the time that passes. All of it is a parameter.
pub mod Api
pub mod Registry
use danube_py.Prelude.{ℕ, ◌≤◌, ◌≡◌, String, Bool, true, false, Option, List}
use danube_py.Errors.{Result}
use Api.{
  ConsumerRequest, ConsumerResponse, ReceiveRequest, AckRequest, AckResponse, NackRequest,
  NackResponse, Bytes, ProducerRequest, ProducerResponse, StreamMessage, MessageResponse,
  TopicLookupRequest, TopicLookupResponse, TopicPartitionsResponse, HealthCheckRequest,
  ClientStatus,
}
use Registry.{
  GetSchemaRequest, GetLatestSchemaRequest, GetSchemaResponse, RegisterSchemaRequest,
  RegisterSchemaResponse, ListVersionsRequest, ListVersionsResponse, CheckCompatibilityRequest,
  CheckCompatibilityResponse, DeleteSchemaVersionRequest, DeleteSchemaVersionResponse,
  SetCompatibilityModeRequest, SetCompatibilityModeResponse, ConfigureTopicSchemaRequest,
  ConfigureTopicSchemaResponse, UpdateTopicValidationPolicyRequest,
  UpdateTopicValidationPolicyResponse, GetTopicSchemaConfigRequest, GetTopicSchemaConfigResponse,
}

-- The metadata of a call; Python passes `None` for none.
abbrev pub Metadata : Type 0
Metadata = Option (List (String × String))

-- One call on a stub over a channel: it returns, raises or never comes back, and the world goes on.
abbrev pub Rpc : Type 0 → Type 0 → Type 0 → Type 0 → Type 0
Rpc World Channel Req Resp = Channel → Req → Metadata → World → Result Resp × World

pub record Env : Type 1 where
  pub World : Type 0
  pub Channel : Type 0
  pub Credentials : Type 0
  pub insecure_channel : String → World → Channel × World
  pub secure_channel : String → Credentials → World → Channel × World
  -- root certificates, private key, certificate chain
  pub ssl_channel_credentials : Option Bytes → Option Bytes → Option Bytes → Credentials
  -- `open(path, "rb")` and `read()`
  pub read_file : String → World → Result Bytes × World
  pub randint : ℕ → ℕ → World → ℕ × World
  -- `int(time.time() * 1000)`
  pub now_ms : World → ℕ × World
  pub sleep_ms : ℕ → World → World
  pub create_producer : Rpc World Channel ProducerRequest ProducerResponse
  pub send_message : Rpc World Channel StreamMessage MessageResponse
  pub topic_lookup : Rpc World Channel TopicLookupRequest TopicLookupResponse
  pub topic_partitions : Rpc World Channel TopicLookupRequest TopicPartitionsResponse
  pub health_check : Rpc World Channel HealthCheckRequest ClientStatus
  pub subscribe : Rpc World Channel ConsumerRequest ConsumerResponse
  pub ack : Rpc World Channel AckRequest AckResponse
  pub nack : Rpc World Channel NackRequest NackResponse
  -- A call that opens a stream returns at once; errors come with the first message.
  pub Stream : Type 0
  pub receive_messages : Channel → ReceiveRequest → Metadata → World → Stream × World
  -- One round of `async for` over a stream: a message, or none at its end.
  pub next_message : Stream → World → Result (Option StreamMessage) × World
  pub get_schema : Rpc World Channel GetSchemaRequest GetSchemaResponse
  pub get_latest_schema : Rpc World Channel GetLatestSchemaRequest GetSchemaResponse
  pub register_schema : Rpc World Channel RegisterSchemaRequest RegisterSchemaResponse
  pub list_versions : Rpc World Channel ListVersionsRequest ListVersionsResponse
  pub check_compatibility : Rpc World Channel CheckCompatibilityRequest CheckCompatibilityResponse
  pub delete_schema_version :
      Rpc World Channel DeleteSchemaVersionRequest DeleteSchemaVersionResponse
  pub set_compatibility_mode :
      Rpc World Channel SetCompatibilityModeRequest SetCompatibilityModeResponse
  pub configure_topic_schema :
      Rpc World Channel ConfigureTopicSchemaRequest ConfigureTopicSchemaResponse
  pub update_topic_validation_policy :
      Rpc World Channel UpdateTopicValidationPolicyRequest UpdateTopicValidationPolicyResponse
  pub get_topic_schema_config :
      Rpc World Channel GetTopicSchemaConfigRequest GetTopicSchemaConfigResponse

-- `random.randint(a, b)` is a number from a to b.
pub record RandintInRange (E : Env) : Type 0 where
  pub within :
      (a b : ℕ) (w : E.World) → a ≤ b → (a ≤ (E.randint a b w).0) × ((E.randint a b w).0 ≤ b)

-- A channel remembers its target, and whether it was opened with credentials.
pub record ChannelView (E : Env) : Type 0 where
  pub target : E.Channel → String
  pub is_secure : E.Channel → Bool
  pub insecure_target : (t : String) (w : E.World) → target (E.insecure_channel t w).0 ≡ t
  pub insecure_kind : (t : String) (w : E.World) → is_secure (E.insecure_channel t w).0 ≡ false
  pub secure_target :
      (t : String) (c : E.Credentials) (w : E.World) → target (E.secure_channel t c w).0 ≡ t
  pub secure_kind :
      (t : String) (c : E.Credentials) (w : E.World) → is_secure (E.secure_channel t c w).0 ≡ true
