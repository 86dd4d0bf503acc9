-- ===== src/Consumer/Builder.antt =====
-- `ConsumerBuilder`: the settings of a consumer, and what must be set.
use danube_py.Prelude.{String, pos, List, [], ◌∷◌, ◌++◌, ◌||◌, str_eq, if◌then◌else◌}
use danube_py.Errors.{value_error}
use danube_py.Exec.{Exec, pure, raise, ◌>>=◌}
use danube_py.Env.{Env}
use danube_py.Client.{Client, new_event}
use danube_py.Consumer.{SubType, shared, ConsumerOptions, Consumer}

-- The client is the one that the builder was made by.
pub record ConsumerBuilder : Type 0 where
  pub topic : String
  pub consumer_name : String
  pub subscription : String
  pub subscription_type : SubType
  pub options : ConsumerOptions
  pub key_filters : List String

unfoldable pub new_consumer : ConsumerBuilder
new_consumer = record {
  topic = "";
  consumer_name = "";
  subscription = "";
  subscription_type = shared;
  options = record { max_retries = pos 0; base_backoff_ms = pos 0; max_backoff_ms = pos 0 };
  key_filters = [];
}

unfoldable pub with_topic : String → ConsumerBuilder → ConsumerBuilder
with_topic topic b = record b { topic = topic }

unfoldable pub with_consumer_name : String → ConsumerBuilder → ConsumerBuilder
with_consumer_name name b = record b { consumer_name = name }

unfoldable pub with_subscription : String → ConsumerBuilder → ConsumerBuilder
with_subscription subscription b = record b { subscription = subscription }

unfoldable pub with_subscription_type : SubType → ConsumerBuilder → ConsumerBuilder
with_subscription_type sub_type b = record b { subscription_type = sub_type }

unfoldable pub with_options : ConsumerOptions → ConsumerBuilder → ConsumerBuilder
with_options options b = record b { options = options }

unfoldable pub with_key_filter : String → ConsumerBuilder → ConsumerBuilder
with_key_filter pattern b = record b { key_filters = b.key_filters ++ (pattern ∷ []) }

unfoldable pub with_key_filters : List String → ConsumerBuilder → ConsumerBuilder
with_key_filters patterns b = record b { key_filters = b.key_filters ++ patterns }

module _ {E : Env} where
  unfoldable pub build : ConsumerBuilder → Exec (Client E) (Consumer E)
  unfolding ◌>>=◌ pure raise new_event
  build b =
      if str_eq b.topic "" || (str_eq b.consumer_name "" || str_eq b.subscription "")
      then raise (value_error "topic, consumer_name, and subscription are required")
      else (new_event >>= λ shutdown. pure (record {
        topic_name = b.topic;
        consumer_name = b.consumer_name;
        subscription = b.subscription;
        subscription_type = b.subscription_type;
        options = b.options;
        key_filters = b.key_filters;
        consumers = [];
        shutdown = shutdown;
        tasks = [];
      }))
