-- ===== src/Growth/Subscriber.antt =====
-- The calls of a topic consumer: what they leave alone, and what only grows.
pub mod Ending
use danube_py.Prelude.{ℕ, zero, suc, ◌+◌, ◌≤◌, Option, some, ◌≡◌, refl, ap, ◌∙◌, arith}
use danube_py.Errors.{Error}
use danube_py.Exec.{◌>>◌, Exec}
use danube_py.Exec.Steps.{
  IsPreorder, Steps, Steps-pure, Steps-raise, Steps-diverge, Steps-gets, Steps-bind, Steps-catch,
  Steps-if, Steps-modify, Steps-zoom, Steps-state, Steps-or_raise, steps_rules,
}
use danube_py.Env.{Env}
use danube_py.Env.Api.{ConsumerResponse}
use danube_py.Client.{Client, BrokerAddress}
use danube_py.Connection.Growth.{
  Grows, Grows-preorder, outside-Grows, set_event-Grows, clear_event-Grows, cancel_task-Grows,
  get_connection-Grows,
}
use danube_py.Growth.{attach_token-Grows, handle_lookup-Grows, start_health_check-Grows}
use danube_py.TopicConsumer.{
  TopicConsumer, Subscriber, on_client, get_this, set_this, next_request_id, connect, use_address,
  lookup_new_broker, call_metadata,
}
use danube_py.TopicConsumer.Subscribe.{
  subscribe_numbered, begin_health_check, register, try_subscribe, back_off, after_failure,
  subscribe_loop, subscribe,
}
use danube_py.TopicConsumer.Receive.{receive}

module _ {E : Env} where
  -- The settings of the consumer stay, its request numbers and the shared client only grow.
  pub record Evolves (s t : Subscriber E) : Type 0 where
    pub client : Grows s.client t.client
    pub topic_name : t.this.topic_name ≡ s.this.topic_name
    pub subscription : t.this.subscription ≡ s.this.subscription
    pub key_filters : t.this.key_filters ≡ s.this.key_filters
    pub retry_manager : t.this.retry_manager ≡ s.this.retry_manager
    pub stop_event : t.this.stop_event ≡ s.this.stop_event
    pub request_id : s.this.request_id ≤ t.this.request_id

  pub Evolves-preorder : IsPreorder Evolves
  Evolves-preorder = record {
    reflexive = λ s. record {
      client = Grows-preorder.reflexive s.client;
      topic_name = refl;
      subscription = refl;
      key_filters = refl;
      retry_manager = refl;
      stop_event = refl;
      request_id = omega arith;
    };
    transitive = λ s t u f g. record {
      client = Grows-preorder.transitive s.client t.client u.client f.client g.client;
      topic_name = g.topic_name ∙ f.topic_name;
      subscription = g.subscription ∙ f.subscription;
      key_filters = g.key_filters ∙ f.key_filters;
      retry_manager = g.retry_manager ∙ f.retry_manager;
      stop_event = g.stop_event ∙ f.stop_event;
      request_id = omega arith;
    };
  }

  pub on_client-Evolves :
      {A : Type 0} (m : Exec (Client E) A) → Steps Grows m → Steps Evolves (on_client m)
  unfolding on_client
  on_client-Evolves m h = record {
    at = λ s. record {
      client = h.at s.client;
      topic_name = refl;
      subscription = refl;
      key_filters = refl;
      retry_manager = refl;
      stop_event = refl;
      request_id = omega arith;
    };
  }

  pub get_this-Evolves : {A : Type 0} (f : TopicConsumer E → A) → Steps Evolves (get_this f)
  unfolding get_this
  get_this-Evolves f = Steps-gets Evolves-preorder _

  -- A write to other attributes of the consumer.
  pub set_this-Evolves :
      (f : TopicConsumer E → TopicConsumer E)
      → ((p : TopicConsumer E)
          → f p ≡ record (f p) {
            topic_name = p.topic_name;
            subscription = p.subscription;
            key_filters = p.key_filters;
            retry_manager = p.retry_manager;
            stop_event = p.stop_event;
            request_id = p.request_id;
          })
      → Steps Evolves (set_this f)
  unfolding set_this
  set_this-Evolves f h = Steps-modify _ λ s. record {
    client = Grows-preorder.reflexive s.client;
    topic_name = ap (λ p. p.topic_name) (h s.this);
    subscription = ap (λ p. p.subscription) (h s.this);
    key_filters = ap (λ p. p.key_filters) (h s.this);
    retry_manager = ap (λ p. p.retry_manager) (h s.this);
    stop_event = ap (λ p. p.stop_event) (h s.this);
    request_id = omega (arith, ap (λ p. p.request_id) (h s.this));
  }

  pub next_request_id-Evolves : Steps Evolves next_request_id
  unfolding next_request_id
  next_request_id-Evolves = record {
    at = λ s. record {
      client = Grows-preorder.reflexive s.client;
      topic_name = refl;
      subscription = refl;
      key_filters = refl;
      retry_manager = refl;
      stop_event = refl;
      request_id = omega arith;
    };
  }

-- The rules for the calls of a topic consumer.
pub ruleset subscriber_rules = (
  steps_rules, Evolves-preorder, get_this-Evolves, on_client-Evolves, next_request_id-Evolves,
  outside-Grows, set_event-Grows, cancel_task-Grows, get_connection-Grows, attach_token-Grows,
  handle_lookup-Grows, start_health_check-Grows, clear_event-Grows,
)

module _ {E : Env} where
  set_stub-Evolves :
      (channel : E.Channel)
      → Steps (Evolves {E = E}) (set_this λ p. record p { stub = some channel })
  set_stub-Evolves channel = set_this-Evolves _ λ p. refl

  connect-Evolves : Steps (Evolves {E = E}) connect
  unfolding connect
  connect-Evolves = search (subscriber_rules, set_stub-Evolves)

  use_address-Evolves : (addr : BrokerAddress) → Steps (Evolves {E = E}) (use_address addr)
  unfolding use_address
  use_address-Evolves addr = set_this-Evolves _ λ p. refl

  lookup_new_broker-Evolves : Steps (Evolves {E = E}) lookup_new_broker
  unfolding lookup_new_broker
  lookup_new_broker-Evolves = search (subscriber_rules, use_address-Evolves) depth 7

  pub call_metadata-Evolves : Steps (Evolves {E = E}) call_metadata
  unfolding call_metadata
  call_metadata-Evolves = search subscriber_rules

  subscribe_numbered-Evolves : (n : ℕ) → Steps (Evolves {E = E}) (subscribe_numbered n)
  unfolding subscribe_numbered
  subscribe_numbered-Evolves n = search (subscriber_rules, call_metadata-Evolves) depth 9

  pub set_health_task-Evolves :
      (task : Option ℕ) → Steps (Evolves {E = E}) (set_this λ p. record p { health_task = task })
  set_health_task-Evolves task = set_this-Evolves _ λ p. refl

  set_consumer_id-Evolves :
      (id : ℕ) → Steps (Evolves {E = E}) (set_this λ p. record p { consumer_id = id })
  set_consumer_id-Evolves id = set_this-Evolves _ λ p. refl

  begin_health_check-Evolves : Steps (Evolves {E = E}) begin_health_check
  unfolding begin_health_check
  begin_health_check-Evolves = search (subscriber_rules, set_health_task-Evolves) depth 7

  register-Evolves : (resp : ConsumerResponse) → Steps (Evolves {E = E}) (register resp)
  unfolding register
  register-Evolves resp =
      search (subscriber_rules, set_consumer_id-Evolves, begin_health_check-Evolves) depth 7

  try_subscribe-Evolves : Steps (Evolves {E = E}) try_subscribe
  unfolding try_subscribe
  try_subscribe-Evolves =
      search (subscriber_rules, connect-Evolves, subscribe_numbered-Evolves, register-Evolves) depth
        8

  back_off-Evolves : (attempt : ℕ) → Steps (Evolves {E = E}) (back_off attempt)
  unfolding back_off
  back_off-Evolves attempt = search subscriber_rules depth 7

  after_failure-Evolves :
      (err : Error) (max_retries attempts : ℕ) (again : Exec (Subscriber E) ℕ)
      → Steps Evolves again
      → Steps Evolves (after_failure err max_retries attempts again)
  after_failure-Evolves err max_retries attempts again h = search subscriber_rules depth 7

  again-Evolves :
      (attempts : ℕ) (rest : Exec (Subscriber E) ℕ)
      → Steps Evolves rest
      → Steps Evolves (lookup_new_broker >> (back_off attempts >> rest))
  again-Evolves attempts rest h =
      search (subscriber_rules, lookup_new_broker-Evolves, back_off-Evolves)

  subscribe_loop-Evolves :
      (fuel attempts : ℕ) → Steps (Evolves {E = E}) (subscribe_loop fuel attempts)
  unfolding subscribe_loop
  subscribe_loop-Evolves zero attempts = search subscriber_rules
  subscribe_loop-Evolves (suc fuel) attempts =
      Steps-catch Evolves-preorder try_subscribe _ try_subscribe-Evolves λ err.
        Steps-bind Evolves-preorder _ _ (get_this-Evolves _) λ m.
          after_failure-Evolves err m attempts _
            (again-Evolves attempts _ (subscribe_loop-Evolves fuel (attempts + 1)))

  pub subscribe-Evolves : Steps (Evolves {E = E}) subscribe
  unfolding subscribe
  subscribe-Evolves =
      search (subscriber_rules, lookup_new_broker-Evolves, subscribe_loop-Evolves) depth 7

  pub receive-Evolves : Steps (Evolves {E = E}) receive
  unfolding receive
  receive-Evolves = search (subscriber_rules, call_metadata-Evolves) depth 9
