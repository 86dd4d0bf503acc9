-- ===== src/Examples/Streams.antt =====
-- A broker whose stream gives one message after the other, and a user who gets two of them.
use danube_py.Prelude.{
  ℕ, suc, pos, Bool, str_eq, true, false, none, some, List, [], ◌∷◌, ◌++◌, ◌≡◌, refl,
}
use danube_py.Errors.{ok}
use danube_py.Env.{Env}
use danube_py.Env.Api.{StreamMessage}
use danube_py.Client.{Client}
use danube_py.Retry
use danube_py.Consumer.{reading}
use danube_py.Consumer.Loop.{receive_step}
use danube_py.Consumer.Loop.Arriving.{kept}
use danube_py.Consumer.Loop.Delivery.{
  Delivery, Event, steps, takes, puts, changes, only, mine, arrivals, run, messages_in_order,
}
use danube_py.Examples.World.{clock_env}
use danube_py.Examples.Consumers.{received}

-- The message with a number as its request's.
abbrev numbered : ℕ → StreamMessage
numbered n = record received { request_id = n }

abbrev stream_env : Env
stream_env = record clock_env { next_message = λ stream w. (ok (some (numbered w)), suc w) }

abbrev delivery : Delivery stream_env
delivery = record {
  phase = reading 0;
  feed = record {
    this = record {
      topic_name = "/default/t";
      consumer_name = "c";
      consumer_id = 9;
      subscription = "s";
      subscription_type = 1;
      key_filters = [];
      request_id = 2;
      retry_manager = Retry.new (pos 2) (pos 0) (pos 0);
      stub = some ("b1:6650", false);
      stop_event = 0;
      health_task = none;
      broker_addr = "http://b1:6650";
      connect_url = "http://b1:6650";
      proxy = false;
    };
    client = record {
      uri = "http://b0:6650";
      manager = record {
        options = record {
          use_tls = false;
          tls_credentials = none;
          token = "";
          token_supplier = none;
          internal_broker = "";
        };
        connections = [];
      };
      lookup_id = 1;
      health_id = 1;
      events = false ∷ false ∷ [];
      tasks = [];
      world = 5;
    };
    queue = [];
  };
  taken = [];
}

-- The messages of the loop's own topic.
abbrev own : StreamMessage → Bool
own message = str_eq message.msg_id.topic_name "/default/t"

abbrev foreign : StreamMessage
foreign = record received { msg_id = record (received.msg_id) { topic_name = "/default/other" } }

abbrev closed_client : Client stream_env
closed_client = record (delivery.feed.client) { events = true ∷ false ∷ []; world = 9 }

-- The last message comes when the broker has closed the topic.
abbrev events : List (Event stream_env own)
events =
    steps
    ∷ takes
    ∷ puts foreign refl
    ∷ steps
    ∷ takes
    ∷ changes delivery.feed.this closed_client
    ∷ steps
    ∷ []

three_arrive :
    arrivals (Retry.new (pos 2) (pos 0) (pos 0)) 1 events delivery
    ≡ (numbered 5, false) ∷ (numbered 6, false) ∷ (numbered 9, true) ∷ []
unfolding receive_step
three_arrive = refl

messages_in_order_example :
    mine own (run (Retry.new (pos 2) (pos 0) (pos 0)) 1 events delivery)
    ≡ mine own delivery
      ++ only own (kept (arrivals (Retry.new (pos 2) (pos 0) (pos 0)) 1 events delivery))
messages_in_order_example =
    messages_in_order own (Retry.new (pos 2) (pos 0) (pos 0)) 1 events delivery
