-- ===== src/TopicConsumer.antt =====
-- danube/topic_consumer.py: a consumer of one topic or one partition of a topic.
pub mod Subscribe
pub mod Receive
use danube_py.Prelude.{ℕ, ◌+◌, ◌<>◌, String, ℤ, Bool, false, Option, none, some, List, []}
use danube_py.Errors.{Error, unrecoverable, rpc, already_exists}
use danube_py.Exec.{Exec, pure, gets, modify, state, catch, zoom, ◌>>=◌, ◌>>◌}
use danube_py.Env.{Env, Metadata}
use danube_py.Client.{Client, BrokerAddress, new_event}
use danube_py.Connection.{get_connection}
use danube_py.Auth.{attach_token_if_needed}
use danube_py.Lookup.{handle_lookup}
use danube_py.Retry
use danube_py.Retry.{RetryManager, insert_proxy_header}

-- `ALREADY_EXISTS` is told apart from the other codes.
unfoldable pub subscribe_error : Error → Error
subscribe_error (rpc already_exists text) = unrecoverable ("consumer already exists: " <> text)
subscribe_error e = e

module _ (E : Env) where
  -- `request_id` is the next number of `itertools.count`, a stub is its channel, and an event or a
  -- task is its place in the client.
  pub record TopicConsumer : Type 0 where
    pub topic_name : String
    pub consumer_name : String
    pub consumer_id : ℕ
    pub subscription : String
    pub subscription_type : ℕ
    pub key_filters : List String
    pub request_id : ℕ
    pub retry_manager : RetryManager
    pub stub : Option E.Channel
    pub stop_event : ℕ
    pub health_task : Option ℕ
    pub broker_addr : String
    pub connect_url : String
    pub proxy : Bool

  -- The consumer with the client that it shares.
  pub record Subscriber : Type 0 where
    pub this : TopicConsumer
    pub client : Client E

module _ {E : Env} where
  -- `key_filters or []` is the list itself, as `None` is not passed here.
  unfoldable pub new :
      String → String → String → ℕ → List String → ℤ → ℤ → ℤ → Exec (Client E) (TopicConsumer E)
  unfolding ◌>>=◌ pure gets new_event Retry.new
  new topic consumer_name subscription subscription_type key_filters max_retries base_backoff_ms
        max_backoff_ms =
      do
        stop_event ← new_event
        uri ← gets λ c. c.uri
        pure (record {
          topic_name = topic;
          consumer_name = consumer_name;
          consumer_id = 0;
          subscription = subscription;
          subscription_type = subscription_type;
          key_filters = key_filters;
          request_id = 1;
          retry_manager = Retry.new max_retries base_backoff_ms max_backoff_ms;
          stub = none;
          stop_event = stop_event;
          health_task = none;
          broker_addr = uri;
          connect_url = uri;
          proxy = false;
        })

  -- A call on the shared client.
  unfoldable pub on_client : {A : Type 0} → Exec (Client E) A → Exec (Subscriber E) A
  unfolding zoom
  on_client = zoom (λ s. s.client) (λ c s. record s { client = c })

  -- An attribute is read, or the attributes are written.
  unfoldable pub get_this : {A : Type 0} → (TopicConsumer E → A) → Exec (Subscriber E) A
  unfolding gets
  get_this f = gets λ s. f s.this

  unfoldable pub set_this : (TopicConsumer E → TopicConsumer E) → Exec (Subscriber E) (Unit {0})
  unfolding modify
  set_this f = modify λ s. record s { this = f s.this }

  unfoldable pub next_request_id : Exec (Subscriber E) ℕ
  unfolding state
  next_request_id = state λ s. (
    s.this.request_id,
    record s { this = record (s.this) { request_id = s.this.request_id + 1 } },
  )

  unfoldable pub connect : Exec (Subscriber E) (Unit {0})
  unfolding ◌>>=◌ get_this set_this on_client get_connection
  connect = do
    this ← get_this λ p. p
    conn ← on_client (get_connection this.broker_addr this.connect_url)
    set_this λ p. record p { stub = some conn.channel }

  unfoldable pub use_address : BrokerAddress → Exec (Subscriber E) (Unit {0})
  unfolding set_this
  use_address addr = set_this λ p. record p {
    broker_addr = addr.broker_url;
    connect_url = addr.connect_url;
    proxy = addr.proxy;
  }

  unfoldable pub lookup_new_broker : Exec (Subscriber E) (Unit {0})
  unfolding ◌>>=◌ pure catch get_this on_client use_address handle_lookup
  lookup_new_broker = do
    this ← get_this λ p. p
    catch (on_client (handle_lookup this.connect_url this.topic_name) >>= use_address)
        (λ e. pure tt)

  -- The metadata of a call of this consumer.
  unfoldable pub call_metadata : Exec (Subscriber E) Metadata
  unfolding ◌>>=◌ pure get_this on_client attach_token_if_needed insert_proxy_header
  call_metadata = do
    this ← get_this λ p. p
    metadata ← on_client (attach_token_if_needed this.connect_url)
    pure (insert_proxy_header metadata this.broker_addr this.proxy)
