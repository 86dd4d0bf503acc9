-- ===== src/Env/Api.antt =====
-- The messages of danube/proto/DanubeApi.proto. An `optional` field is an `Option`; a text or a
-- number that is not set is empty or 0, as in the generated classes.
use danube_py.Prelude.{ℕ, String, Bool, Option, List}

abbrev pub Bytes : Type 0
Bytes = List ℕ

-- `oneof version_ref`
pub data VersionRef : Type 0 where
  unset : VersionRef
  use_latest : Bool → VersionRef
  pinned_version min_version : ℕ → VersionRef

pub record SchemaReference : Type 0 where
  pub subject : String
  pub version_ref : VersionRef

pub data ProducerAccessMode : Type 0 where
  shared exclusive : ProducerAccessMode

pub record ProducerRequest : Type 0 where
  pub request_id : ℕ
  pub producer_name : String
  pub topic_name : String
  pub schema_ref : Option SchemaReference
  pub producer_access_mode : ProducerAccessMode
  pub dispatch_strategy : ℕ

pub record ProducerResponse : Type 0 where
  pub request_id : ℕ
  pub producer_id : ℕ
  pub producer_name : String

pub record MessageResponse : Type 0 where
  pub request_id : ℕ

pub record MsgId : Type 0 where
  pub producer_id : ℕ
  pub topic_name : String
  pub broker_addr : String
  pub topic_offset : ℕ

pub record StreamMessage : Type 0 where
  pub request_id : ℕ
  pub msg_id : MsgId
  pub payload : Bytes
  pub publish_time : ℕ
  pub producer_name : String
  pub subscription_name : String
  pub attributes : List (String × String)
  pub schema_id : Option ℕ
  pub schema_version : Option ℕ
  pub routing_key : Option String

pub record TopicLookupRequest : Type 0 where
  pub request_id : ℕ
  pub topic : String

-- An enum field may hold a number that the client's version of the file does not name.
pub data LookupType : Type 0 where
  redirect connect failed : LookupType
  unrecognized : ℕ → LookupType

pub record TopicLookupResponse : Type 0 where
  pub request_id : ℕ
  pub response_type : LookupType
  pub connect_url : String
  pub broker_url : String
  pub proxy : Bool

pub record TopicPartitionsResponse : Type 0 where
  pub request_id : ℕ
  pub partitions : List String

pub data ClientType : Type 0 where
  producer consumer : ClientType

pub record HealthCheckRequest : Type 0 where
  pub request_id : ℕ
  pub client : ClientType
  pub id : ℕ

-- A status is an enum too; a number that the client does not know is kept.
pub data ClientStatus : Type 0 where
  healthy close : ClientStatus
  other_status : ℕ → ClientStatus

-- The type of a subscription is an enum; Python passes its number.
pub record ConsumerRequest : Type 0 where
  pub request_id : ℕ
  pub topic_name : String
  pub consumer_name : String
  pub subscription : String
  pub subscription_type : ℕ
  pub key_filters : List String

pub record ConsumerResponse : Type 0 where
  pub request_id : ℕ
  pub consumer_id : ℕ
  pub consumer_name : String

pub record ReceiveRequest : Type 0 where
  pub request_id : ℕ
  pub consumer_id : ℕ

pub record AckRequest : Type 0 where
  pub request_id : ℕ
  pub msg_id : MsgId
  pub subscription_name : String

pub record AckResponse : Type 0 where
  pub request_id : ℕ

pub record NackRequest : Type 0 where
  pub request_id : ℕ
  pub msg_id : MsgId
  pub subscription_name : String
  pub delay_ms : Option ℕ
  pub reason : Option String

pub record NackResponse : Type 0 where
  pub request_id : ℕ
