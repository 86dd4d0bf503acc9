-- ===== src/TopicProducer.antt =====
-- danube/topic_producer.py: a producer of one topic or one partition of a topic.
pub mod Schema
pub mod Create
pub mod Send
pub mod Accepted
pub mod Relocated
use danube_py.Prelude.{
  ℕ, suc, zero, ◌+◌, String, ◌<>◌, ℤ, Bool, true, false, Option, none, some, List, [], ltb,
  if◌then◌else◌,
}
use danube_py.Errors.{
  Error, unrecoverable, value_error, attribute_error, rpc, StatusCode, already_exists,
}
use danube_py.Exec.{
  Exec, pure, raise, diverge, gets, modify, state, catch, or_raise, zoom, ◌>>=◌, ◌>>◌,
}
use danube_py.Env.{Env, Metadata}
use danube_py.Env.Api.{
  Bytes, SchemaReference, VersionRef, unset, use_latest, pinned_version, min_version, shared,
  ProducerRequest, producer, MsgId, StreamMessage, ClientType,
}
use danube_py.Client.{Client, BrokerAddress, outside, new_event, set_event, cancel_task}
use danube_py.Connection.{get_connection}
use danube_py.Auth.{attach_token_if_needed}
use danube_py.Lookup.{handle_lookup}
use danube_py.Health.{start_health_check}
use danube_py.Registry.{SchemaInfo, get_latest_schema, get_schema_version}
use danube_py.Retry
use danube_py.Retry.{RetryManager, is_retryable, calculate_backoff, insert_proxy_header}

-- danube/dispatch_strategy.py
pub data DispatchStrategy : Type 0 where
  non_reliable reliable : DispatchStrategy

unfoldable pub to_proto : DispatchStrategy → ℕ
to_proto non_reliable = 0
to_proto reliable = 1

-- `ALREADY_EXISTS` is told apart from the other codes.
unfoldable pub create_error : Error → Error
create_error (rpc already_exists text) = unrecoverable ("producer already exists: " <> text)
create_error e = e

module _ (E : Env) where
  -- `request_id` is the next number of `itertools.count`, a stub is its channel, and an event or a
  -- task is its place in the client.
  pub record TopicProducer : Type 0 where
    pub topic : String
    pub producer_name : String
    pub producer_id : ℕ
    pub request_id : ℕ
    pub schema_ref : Option SchemaReference
    pub schema_id : Option ℕ
    pub schema_version : Option ℕ
    pub dispatch_strategy : DispatchStrategy
    pub retry_manager : RetryManager
    pub stub : Option E.Channel
    pub stop_event : ℕ
    pub health_task : Option ℕ
    pub broker_addr : String
    pub connect_url : String
    pub proxy : Bool

  -- The producer with the client that it shares.
  pub record Session : Type 0 where
    pub this : TopicProducer
    pub client : Client E

module _ {E : Env} where
  unfoldable pub new :
      String
      → String
      → Option SchemaReference
      → DispatchStrategy
      → ℤ
      → ℤ
      → ℤ
      → Exec (Client E) (TopicProducer E)
  unfolding ◌>>=◌ pure gets new_event Retry.new
  new topic producer_name schema_ref dispatch_strategy max_retries base_backoff_ms max_backoff_ms =
      do
        stop_event ← new_event
        uri ← gets λ c. c.uri
        pure (record {
          topic = topic;
          producer_name = producer_name;
          producer_id = 0;
          request_id = 1;
          schema_ref = schema_ref;
          schema_id = none;
          schema_version = none;
          dispatch_strategy = dispatch_strategy;
          retry_manager = Retry.new max_retries base_backoff_ms max_backoff_ms;
          stub = none;
          stop_event = stop_event;
          health_task = none;
          broker_addr = uri;
          connect_url = uri;
          proxy = false;
        })

  -- A call on the shared client.
  unfoldable pub on_client : {A : Type 0} → Exec (Client E) A → Exec (Session E) A
  unfolding zoom
  on_client = zoom (λ s. s.client) (λ c s. record s { client = c })

  -- An attribute is read, or the attributes are written.
  unfoldable pub get_this : {A : Type 0} → (TopicProducer E → A) → Exec (Session E) A
  unfolding gets
  get_this f = gets λ s. f s.this

  unfoldable pub set_this : (TopicProducer E → TopicProducer E) → Exec (Session E) (Unit {0})
  unfolding modify
  set_this f = modify λ s. record s { this = f s.this }

  unfoldable pub next_request_id : Exec (Session E) ℕ
  unfolding state
  next_request_id = state λ s. (
    s.this.request_id,
    record s { this = record (s.this) { request_id = s.this.request_id + 1 } },
  )

  unfoldable pub connect : Exec (Session E) (Unit {0})
  unfolding ◌>>=◌ get_this set_this on_client get_connection
  connect = do
    this ← get_this λ p. p
    conn ← on_client (get_connection this.broker_addr this.connect_url)
    set_this λ p. record p { stub = some conn.channel }

  unfoldable pub use_address : BrokerAddress → Exec (Session E) (Unit {0})
  unfolding set_this
  use_address addr = set_this λ p. record p {
    broker_addr = addr.broker_url;
    connect_url = addr.connect_url;
    proxy = addr.proxy;
  }

  unfoldable pub lookup_new_broker : Exec (Session E) (Unit {0})
  unfolding ◌>>=◌ pure catch get_this on_client use_address handle_lookup
  lookup_new_broker = do
    this ← get_this λ p. p
    catch (on_client (handle_lookup this.connect_url this.topic) >>= use_address) (λ e. pure tt)

  -- The metadata of a call of this producer.
  unfoldable pub call_metadata : Exec (Session E) Metadata
  unfolding ◌>>=◌ pure get_this on_client attach_token_if_needed insert_proxy_header
  call_metadata = do
    this ← get_this λ p. p
    metadata ← on_client (attach_token_if_needed this.connect_url)
    pure (insert_proxy_header metadata this.broker_addr this.proxy)
