-- ===== src/Producer/Builder.antt =====
-- `ProducerBuilder`: the settings of a producer, and what must be set.
use danube_py.Prelude.{ℕ, String, ℤ, pos, true, Option, none, some, [], str_eq, if◌then◌else◌}
use danube_py.Errors.{Result, ok, err, value_error}
use danube_py.Env.{Env}
use danube_py.Env.Api.{SchemaReference, use_latest, pinned_version, min_version}
use danube_py.TopicProducer.{DispatchStrategy, non_reliable}
use danube_py.Producer.{ProducerOptions, Producer}

-- The client is the one that the builder was made by.
pub record ProducerBuilder : Type 0 where
  pub topic : String
  pub producer_name : String
  pub partitions : ℤ
  pub schema_ref : Option SchemaReference
  pub dispatch_strategy : DispatchStrategy
  pub options : ProducerOptions

unfoldable pub new_producer : ProducerBuilder
new_producer = record {
  topic = "";
  producer_name = "";
  partitions = pos 0;
  schema_ref = none;
  dispatch_strategy = non_reliable;
  options = record { max_retries = pos 0; base_backoff_ms = pos 0; max_backoff_ms = pos 0 };
}

unfoldable pub with_topic : String → ProducerBuilder → ProducerBuilder
with_topic topic b = record b { topic = topic }

unfoldable pub with_name : String → ProducerBuilder → ProducerBuilder
with_name name b = record b { producer_name = name }

unfoldable pub with_schema_subject : String → ProducerBuilder → ProducerBuilder
with_schema_subject subject b = record b {
  schema_ref = some (record { subject = subject; version_ref = use_latest true });
}

unfoldable pub with_schema_version : String → ℕ → ProducerBuilder → ProducerBuilder
with_schema_version subject version b = record b {
  schema_ref = some (record { subject = subject; version_ref = pinned_version version });
}

unfoldable pub with_schema_min_version : String → ℕ → ProducerBuilder → ProducerBuilder
with_schema_min_version subject version b = record b {
  schema_ref = some (record { subject = subject; version_ref = min_version version });
}

unfoldable pub with_dispatch_strategy : DispatchStrategy → ProducerBuilder → ProducerBuilder
with_dispatch_strategy strategy b = record b { dispatch_strategy = strategy }

unfoldable pub with_partitions : ℤ → ProducerBuilder → ProducerBuilder
with_partitions partitions b = record b { partitions = partitions }

unfoldable pub with_options : ProducerOptions → ProducerBuilder → ProducerBuilder
with_options options b = record b { options = options }

module _ (E : Env) where
  unfoldable pub build : ProducerBuilder → Result (Producer E)
  build b =
      if str_eq b.topic ""
      then err (value_error "topic must be set")
      else if str_eq b.producer_name ""
      then err (value_error "producer name must be set")
      else ok (record {
        topic_name = b.topic;
        producer_name = b.producer_name;
        partitions = b.partitions;
        schema_ref = b.schema_ref;
        dispatch_strategy = b.dispatch_strategy;
        options = b.options;
        producers = [];
        message_router = none;
      })
