-- ===== src/Growth/Session.antt =====
-- The calls of a topic producer: what they leave alone, and what only grows.
pub mod Calls
pub mod Create
use danube_py.Prelude.{
  ℕ, zero, suc, ◌+◌, ◌≤◌, String, Option, none, some, List, ◌≡◌, refl, ap, ◌∙◌, arith, ltb,
  if◌then◌else◌,
}
use danube_py.Errors.{Error}
use danube_py.Exec.{◌>>◌, Exec, gets, modify}
use danube_py.Exec.Steps.{
  IsPreorder, Steps, Steps-pure, Steps-raise, Steps-diverge, Steps-gets, Steps-bind, Steps-catch,
  Steps-if, Steps-modify, Steps-zoom, Steps-state, Steps-or_raise, steps_rules,
}
use danube_py.Env.{Env}
use danube_py.Env.Api.{
  ProducerResponse, Bytes, SchemaReference, VersionRef, unset, use_latest, pinned_version,
  min_version,
}
use danube_py.Client.{Client, BrokerAddress, outside, set_event, cancel_task}
use danube_py.Connection.Growth.{
  Grows, Grows-preorder, outside-Grows, set_event-Grows, cancel_task-Grows, get_connection-Grows,
}
use danube_py.Growth.{
  attach_token-Grows, handle_lookup-Grows, start_health_check-Grows, get_schema_version-Grows,
  get_latest_schema-Grows,
}
use danube_py.TopicProducer.{
  TopicProducer, Session, on_client, get_this, set_this, next_request_id, connect, use_address,
  lookup_new_broker, call_metadata,
}
use danube_py.Registry.{SchemaInfo}
use danube_py.TopicProducer.Schema.{
  pinned, at_least, check_version, resolve_reference, resolve, resolve_schema_metadata,
}
use danube_py.TopicProducer.Create.{
  request_numbered, register, request_producer, begin_health_check, adopt, cancel_health,
  adopt_schema, try_create, back_off, after_failure, create_loop, create, stop,
}
use danube_py.TopicProducer.Send.{send_on, send_by, send}

module _ {E : Env} where
  -- The settings of the producer stay, its request numbers and the shared client only grow.
  pub record Evolves (s t : Session E) : Type 0 where
    pub client : Grows s.client t.client
    pub topic : t.this.topic ≡ s.this.topic
    pub producer_name : t.this.producer_name ≡ s.this.producer_name
    pub schema_ref : t.this.schema_ref ≡ s.this.schema_ref
    pub retry_manager : t.this.retry_manager ≡ s.this.retry_manager
    pub stop_event : t.this.stop_event ≡ s.this.stop_event
    pub request_id : s.this.request_id ≤ t.this.request_id

  pub Evolves-preorder : IsPreorder Evolves
  Evolves-preorder = record {
    reflexive = λ s. record {
      client = Grows-preorder.reflexive s.client;
      topic = refl;
      producer_name = refl;
      schema_ref = refl;
      retry_manager = refl;
      stop_event = refl;
      request_id = omega arith;
    };
    transitive = λ s t u f g. record {
      client = Grows-preorder.transitive s.client t.client u.client f.client g.client;
      topic = g.topic ∙ f.topic;
      producer_name = g.producer_name ∙ f.producer_name;
      schema_ref = g.schema_ref ∙ f.schema_ref;
      retry_manager = g.retry_manager ∙ f.retry_manager;
      stop_event = g.stop_event ∙ f.stop_event;
      request_id = omega arith;
    };
  }

  pub on_client-Evolves :
      {A : Type 0} (m : Exec (Client E) A) → Steps Grows m → Steps Evolves (on_client m)
  unfolding on_client
  on_client-Evolves m h = record {
    at = λ s. record {
      client = h.at s.client;
      topic = refl;
      producer_name = refl;
      schema_ref = refl;
      retry_manager = refl;
      stop_event = refl;
      request_id = omega arith;
    };
  }

  pub get_this-Evolves : {A : Type 0} (f : TopicProducer E → A) → Steps Evolves (get_this f)
  unfolding get_this
  get_this-Evolves f = Steps-gets Evolves-preorder _

  -- A write to other attributes of the producer.
  pub set_this-Evolves :
      (f : TopicProducer E → TopicProducer E)
      → ((p : TopicProducer E)
          → f p ≡ record (f p) {
            topic = p.topic;
            producer_name = p.producer_name;
            schema_ref = p.schema_ref;
            retry_manager = p.retry_manager;
            stop_event = p.stop_event;
            request_id = p.request_id;
          })
      → Steps Evolves (set_this f)
  unfolding set_this
  set_this-Evolves f h = Steps-modify _ λ s. record {
    client = Grows-preorder.reflexive s.client;
    topic = ap (λ p. p.topic) (h s.this);
    producer_name = ap (λ p. p.producer_name) (h s.this);
    schema_ref = ap (λ p. p.schema_ref) (h s.this);
    retry_manager = ap (λ p. p.retry_manager) (h s.this);
    stop_event = ap (λ p. p.stop_event) (h s.this);
    request_id = omega (arith, ap (λ p. p.request_id) (h s.this));
  }

  pub next_request_id-Evolves : Steps Evolves next_request_id
  unfolding next_request_id
  next_request_id-Evolves = record {
    at = λ s. record {
      client = Grows-preorder.reflexive s.client;
      topic = refl;
      producer_name = refl;
      schema_ref = refl;
      retry_manager = refl;
      stop_event = refl;
      request_id = omega arith;
    };
  }

-- The rules for the calls of a session.
pub ruleset session_rules = (
  steps_rules, Evolves-preorder, get_this-Evolves, on_client-Evolves, next_request_id-Evolves,
  outside-Grows, set_event-Grows, cancel_task-Grows, get_connection-Grows, attach_token-Grows,
  handle_lookup-Grows, start_health_check-Grows, get_schema_version-Grows, get_latest_schema-Grows,
)
