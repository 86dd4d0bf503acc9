-- ===== src/Examples/World.antt =====
-- A world that is only a clock in milliseconds: brokers answer at once and accept everything, and
-- every stream breaks at its first message.
use danube_py.Prelude.{
  ℕ, suc, ◌+◌, String, pos, Bool, true, false, Option, none, some, [], ◌∷◌, refl, arith,
}
use danube_py.Errors.{ok, err, rpc, unavailable}
use danube_py.Env.{Env, RandintInRange, ChannelView}
use danube_py.Env.Api.{SchemaReference, pinned_version, connect, healthy}
use danube_py.Client.{Client, ConnectionOptions, running}
use danube_py.TopicProducer.{TopicProducer, Session, reliable}
use danube_py.TopicConsumer.{TopicConsumer}
use danube_py.Consumer.{shared, opening, Feed, Group}
use danube_py.Producer.{Producer, Work}
use danube_py.TopicProducer.Schema.Resolved.{AnswersVersion}
use danube_py.Retry

abbrev pub clock_env : Env
clock_env = record {
  World = ℕ;
  Channel = String × Bool;
  Credentials = String;
  insecure_channel = λ target w. ((target, false), w);
  secure_channel = λ target c w. ((target, true), w);
  ssl_channel_credentials = λ a b c. "default";
  read_file = λ path w. (ok (1 ∷ []), w);
  randint = λ a b w. (a, w);
  now_ms = λ w. (w, w);
  sleep_ms = λ ms w. w + ms;
  create_producer = λ ch req md w. (
    ok (record { request_id = req.request_id; producer_id = 7; producer_name = req.producer_name }),
    w,
  );
  send_message = λ ch msg md w. (ok (record { request_id = msg.request_id }), w);
  topic_lookup = λ ch req md w. (
    ok (record {
      request_id = req.request_id;
      response_type = connect;
      connect_url = "http://b1:6650";
      broker_url = "http://b1:6650";
      proxy = false;
    }),
    w,
  );
  topic_partitions =
      λ ch req md w. (ok (record { request_id = req.request_id; partitions = req.topic ∷ [] }), w);
  health_check = λ ch req md w. (ok healthy, w);
  subscribe = λ ch req md w. (
    ok (record { request_id = req.request_id; consumer_id = 9; consumer_name = req.consumer_name }),
    w,
  );
  ack = λ ch req md w. (ok (record { request_id = req.request_id }), w);
  nack = λ ch req md w. (ok (record { request_id = req.request_id }), w);
  Stream = ℕ;
  receive_messages = λ ch req md w. (w, w);
  next_message = λ stream w. (err (rpc unavailable "down"), suc w);
  get_schema = λ ch req md w. (
    ok (record {
      schema_id = req.schema_id;
      version = version_or req.version;
      subject = "s";
      schema_type = "json";
      schema_definition = [];
      description = "";
      created_at = 0;
      created_by = "";
      tags = [];
      fingerprint = "f";
      compatibility_mode = "";
    }),
    w,
  );
  register_schema = λ ch req md w.
      (ok (record { schema_id = 3; version = 1; is_new_version = true; fingerprint = "f" }), w);
  list_versions = λ ch req md w. (ok (record { versions = [] }), w);
  check_compatibility = λ ch req md w. (ok (record { is_compatible = true; errors = [] }), w);
  delete_schema_version = λ ch req md w. (ok (record { success = true; message = "" }), w);
  set_compatibility_mode = λ ch req md w. (ok (record { success = true; message = "" }), w);
  configure_topic_schema = λ ch req md w. (ok (record { success = true; message = "" }), w);
  update_topic_validation_policy = λ ch req md w. (ok (record { success = true; message = "" }), w);
  get_topic_schema_config = λ ch req md w. (
    ok (record {
      schema_subject = "s";
      validation_policy = "none";
      enable_payload_validation = false;
      schema_id = 3;
    }),
    w,
  );
  get_latest_schema = λ ch req md w. (
    ok (record {
      schema_id = 3;
      version = 4;
      subject = req.subject;
      schema_type = "json";
      schema_definition = [];
      description = "";
      created_at = 0;
      created_by = "";
      tags = [];
      fingerprint = "f";
      compatibility_mode = "";
    }),
    w,
  );
}
  where
    version_or : Option ℕ → ℕ
    version_or none = 4
    version_or (some v) = v

pub clock-RandintInRange : RandintInRange clock_env
clock-RandintInRange = record { within = λ a b w h. (omega arith, h) }

abbrev pub clock-ChannelView : ChannelView clock_env
clock-ChannelView = record {
  target = λ ch. ch.0;
  is_secure = λ ch. ch.1;
  insecure_target = λ t w. refl;
  insecure_kind = λ t w. refl;
  secure_target = λ t c w. refl;
  secure_kind = λ t c w. refl;
}

pub clock-AnswersVersion : AnswersVersion clock_env
clock-AnswersVersion = record { exact = λ ch id v md w h. (ground arith, ground arith) }

abbrev pub options : ConnectionOptions clock_env
options = record {
  use_tls = true;
  tls_credentials = some "mine";
  token = "secret";
  token_supplier = none;
  internal_broker = "";
}

abbrev pub client : Client clock_env
client = record {
  uri = "https://b0:6650";
  manager = record { options = options; connections = [] };
  lookup_id = 1;
  health_id = 1;
  events = false ∷ [];
  tasks = [];
  world = 1000;
}

abbrev pub reference : SchemaReference
reference = record { subject = "s"; version_ref = pinned_version 2 }

abbrev pub topic_producer : TopicProducer clock_env
topic_producer = record {
  topic = "/default/t";
  producer_name = "p";
  producer_id = 0;
  request_id = 1;
  schema_ref = some reference;
  schema_id = none;
  schema_version = none;
  dispatch_strategy = reliable;
  retry_manager = Retry.new (pos 2) (pos 0) (pos 0);
  stub = none;
  stop_event = 0;
  health_task = none;
  broker_addr = "https://b0:6650";
  connect_url = "https://b0:6650";
  proxy = false;
}

abbrev pub session : Session clock_env
session = record { this = topic_producer; client = client }

abbrev pub new_of : ℕ → Producer clock_env
new_of n = record {
  topic_name = "/default/t";
  producer_name = "p";
  partitions = pos n;
  schema_ref = none;
  dispatch_strategy = reliable;
  options = record { max_retries = pos 0; base_backoff_ms = pos 0; max_backoff_ms = pos 0 };
  producers = [];
  message_router = none;
}

-- A producer of `n` partitions that has not been created yet.
abbrev pub work : ℕ → Work clock_env
work n = record { this = new_of n; client = client }

abbrev pub topic_consumer : TopicConsumer clock_env
topic_consumer = record {
  topic_name = "/default/t";
  consumer_name = "c";
  consumer_id = 0;
  subscription = "s";
  subscription_type = 1;
  key_filters = [];
  request_id = 1;
  retry_manager = Retry.new (pos 2) (pos 0) (pos 0);
  stub = none;
  stop_event = 0;
  health_task = none;
  broker_addr = "https://b0:6650";
  connect_url = "https://b0:6650";
  proxy = false;
}

-- The shutdown event of the consumer is at place 1, and set.
abbrev pub closing_feed : Feed clock_env
closing_feed = record {
  this = topic_consumer;
  client = record client { events = false ∷ true ∷ [] };
  queue = [];
}

abbrev pub group : Group clock_env
group = record {
  this = record {
    topic_name = "/default/t";
    consumer_name = "c";
    subscription = "s";
    subscription_type = shared;
    options = record { max_retries = pos 0; base_backoff_ms = pos 0; max_backoff_ms = pos 0 };
    key_filters = [];
    consumers = ("/default/t", 0) ∷ [];
    shutdown = 1;
    tasks =
        record {
          consumer = 0;
          queue = 0;
          retry_manager = Retry.new (pos 2) (pos 0) (pos 0);
          phase = opening 0;
          status = running;
        }
        ∷ [];
  };
  client = record client { events = false ∷ false ∷ [] };
  topic_consumers = topic_consumer ∷ [];
  queues = [] ∷ [];
}
