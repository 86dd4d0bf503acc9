-- ===== src/TopicConsumer/Subscribe/Counting.antt =====
-- The calls of a topic consumer that give out no request number.
use danube_py.Prelude.{ℕ, Option, some, ◌≡◌, refl, ◌∙◌, ap}
use danube_py.Exec.{Exec, ◌>>=◌}
use danube_py.Exec.Steps.{IsPreorder, Steps, Steps-gets, Steps-modify, steps_rules}
use danube_py.Env.{Env}
use danube_py.Env.Api.{ConsumerResponse}
use danube_py.Client.{Client, BrokerAddress}
use danube_py.TopicConsumer.{
  TopicConsumer, Subscriber, on_client, get_this, set_this, connect, use_address, lookup_new_broker,
  call_metadata,
}
use danube_py.TopicConsumer.Subscribe.{subscribe_numbered, register, begin_health_check, back_off}

module _ {E : Env} where
  -- The next request number and the retry settings stay.
  pub record Same (s t : Subscriber E) : Type 0 where
    pub request_id : t.this.request_id ≡ s.this.request_id
    pub retry_manager : t.this.retry_manager ≡ s.this.retry_manager

  pub Same-preorder : IsPreorder Same
  Same-preorder = record {
    reflexive = λ s. record { request_id = refl; retry_manager = refl };
    transitive = λ s t u f g. record {
      request_id = g.request_id ∙ f.request_id;
      retry_manager = g.retry_manager ∙ f.retry_manager;
    };
  }

  on_client-Same : {A : Type 0} (m : Exec (Client E) A) → Steps Same (on_client m)
  unfolding on_client
  on_client-Same m = record { at = λ s. record { request_id = refl; retry_manager = refl } }

  get_this-Same : {A : Type 0} (f : TopicConsumer E → A) → Steps Same (get_this f)
  unfolding get_this
  get_this-Same f = Steps-gets Same-preorder _

  set_this-Same :
      (f : TopicConsumer E → TopicConsumer E)
      → ((c : TopicConsumer E)
          → f c ≡ record (f c) { request_id = c.request_id; retry_manager = c.retry_manager })
      → Steps Same (set_this f)
  unfolding set_this
  set_this-Same f h = Steps-modify _ λ s. record {
    request_id = ap (λ c. c.request_id) (h s.this);
    retry_manager = ap (λ c. c.retry_manager) (h s.this);
  }

ruleset same_rules = (steps_rules, Same-preorder, on_client-Same, get_this-Same)

module _ {E : Env} where
  set_stub-Same :
      (channel : E.Channel) → Steps (Same {E = E}) (set_this λ c. record c { stub = some channel })
  set_stub-Same channel = set_this-Same _ λ c. refl

  pub connect-Same : Steps (Same {E = E}) connect
  unfolding connect
  connect-Same = search (same_rules, set_stub-Same)

  use_address-Same : (addr : BrokerAddress) → Steps (Same {E = E}) (use_address addr)
  unfolding use_address
  use_address-Same addr = set_this-Same _ λ c. refl

  pub lookup_new_broker-Same : Steps (Same {E = E}) lookup_new_broker
  unfolding lookup_new_broker
  lookup_new_broker-Same = search (same_rules, use_address-Same) depth 7

  call_metadata-Same : Steps (Same {E = E}) call_metadata
  unfolding call_metadata
  call_metadata-Same = search same_rules

  set_health_task-Same :
      (task : Option ℕ) → Steps (Same {E = E}) (set_this λ c. record c { health_task = task })
  set_health_task-Same task = set_this-Same _ λ c. refl

  begin_health_check-Same : Steps (Same {E = E}) begin_health_check
  unfolding begin_health_check
  begin_health_check-Same = search (same_rules, set_health_task-Same) depth 7

  pub back_off-Same : (attempt : ℕ) → Steps (Same {E = E}) (back_off attempt)
  unfolding back_off
  back_off-Same attempt = search same_rules depth 7

  subscribe_numbered-Same : (n : ℕ) → Steps (Same {E = E}) (subscribe_numbered n)
  unfolding subscribe_numbered
  subscribe_numbered-Same n = search (same_rules, call_metadata-Same) depth 9

  set_consumer_id-Same :
      (id : ℕ) → Steps (Same {E = E}) (set_this λ c. record c { consumer_id = id })
  set_consumer_id-Same id = set_this-Same _ λ c. refl

  pub register-Same : (resp : ConsumerResponse) → Steps (Same {E = E}) (register resp)
  unfolding register
  register-Same resp = search (same_rules, set_consumer_id-Same, begin_health_check-Same) depth 7

  -- What follows the request number of an attempt.
  pub numbered-Same : (n : ℕ) → Steps (Same {E = E}) (subscribe_numbered n >>= register)
  numbered-Same n = search (same_rules, subscribe_numbered-Same, register-Same)
