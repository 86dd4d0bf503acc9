-- ===== src/Examples/Brokers.antt =====
-- What `create` and `send` do with a broker that accepts everything, and with one that accepts everything
-- but messages.
use danube_py.Prelude.{pos, false, none, some, [], ◌∷◌, ◌≡◌, refl, arith, ℕ}
use danube_py.Errors.{err, pending, rpc, unavailable, ok}
use danube_py.Env.{Env}
use danube_py.Retry
use danube_py.Router.RoundRobin.{router_at}
use danube_py.TopicProducer.{TopicProducer, reliable}
use danube_py.TopicProducer.Accepted.{Accepts}
use danube_py.Producer.{Work}
use danube_py.Producer.Create.Partitions.{IsReady}
use danube_py.Producer.Send.{send, send_with_key}
use danube_py.Producer.Send.Refused.{Refuses}
use danube_py.Producer.Send.Endless.{send_never_ends}
use danube_py.Producer.Send.Accepted.{Takes, create_then_send}
use danube_py.Producer.Send.Routing.{after_sends}
use danube_py.Producer.Create.{create_producer}
use danube_py.Examples.World.{clock_env, client, topic_producer, work}

abbrev refusing_env : Env
refusing_env = record clock_env { send_message = λ ch msg md w. (err (rpc unavailable "full"), w) }

refusing-Accepts : Accepts refusing_env
refusing-Accepts = record {
  looks_up = λ ch req md w. (_, refl, refl);
  registers = λ ch req md w. (_, refl);
}

refusing-Refuses : Refuses refusing_env
unfolding Retry.is_retryable
refusing-Refuses = record { refuses = λ ch msg md w. (rpc unavailable "full", refl, refl) }

abbrev only_producer : TopicProducer refusing_env
only_producer = record {
  topic = "/default/t-part-0";
  producer_name = "p-0";
  producer_id = 7;
  request_id = 2;
  schema_ref = none;
  schema_id = none;
  schema_version = none;
  dispatch_strategy = reliable;
  retry_manager = Retry.new (pos 2) (pos 0) (pos 0);
  stub = some ("b1:6650", false);
  stop_event = 0;
  health_task = none;
  broker_addr = "http://b1:6650";
  connect_url = "http://b1:6650";
  proxy = false;
}

-- A producer of one partition, created and connected.
abbrev refused : Work refusing_env
refused = record {
  this = record {
    topic_name = "/default/t";
    producer_name = "p";
    partitions = pos 1;
    schema_ref = none;
    dispatch_strategy = reliable;
    options = record { max_retries = pos 2; base_backoff_ms = pos 0; max_backoff_ms = pos 0 };
    producers = only_producer ∷ [];
    message_router = some (router_at 0 0);
  };
  client = record {
    uri = "http://b0:6650";
    manager = record {
      options = record {
        use_tls = false;
        tls_credentials = none;
        token = "";
        token_supplier = none;
        internal_broker = "";
      };
      connections = [];
    };
    lookup_id = 1;
    health_id = 1;
    events = false ∷ [];
    tasks = [];
    world = 1000;
  };
}

refused-IsReady : IsReady 0 0 refused.this
refused-IsReady = record {
  partitions = refl;
  message_router = refl;
  in_range = omega arith;
  count = refl;
}

send_never_ends_example :
    ((send 9 (1 ∷ []) none refused).0 ≡ pending)
    × ((send_with_key 9 (1 ∷ []) none "a" refused).0 ≡ pending)
send_never_ends_example =
    send_never_ends 9 0 0 (1 ∷ []) none "a" refused refusing-Accepts refusing-Refuses
      refused-IsReady refl (refl, tt)

clock-Accepts : Accepts clock_env
clock-Accepts = record {
  looks_up = λ ch req md w. (_, refl, refl);
  registers = λ ch req md w. (_, refl);
}

clock-Takes : Takes clock_env
clock-Takes = record { takes = λ ch msg md w. (_, refl) }

create_then_send_example :
    ((create_producer (work 3)).0 ≡ ok tt)
    × ((id : ℕ) × ((send 1
            (3 ∷ [])
            none
            (after_sends 1 ((1 ∷ [], none) ∷ (2 ∷ [], none) ∷ []) (create_producer (work 3)).1)).0
          ≡ ok id))
create_then_send_example =
    create_then_send 2 ((1 ∷ [], none) ∷ (2 ∷ [], none) ∷ []) (3 ∷ []) none (work 3) clock-Accepts
      clock-Takes refl refl refl

-- A producer whose only topic producer was never created.
abbrev cold_producer : TopicProducer clock_env
cold_producer = record topic_producer { schema_ref = none; stub = none }

abbrev cold : Work clock_env
cold = record {
  this = record ((work 1).this) {
    producers = cold_producer ∷ [];
    message_router = some (router_at 0 0);
  };
  client = client;
}
