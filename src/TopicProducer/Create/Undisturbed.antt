-- ===== src/TopicProducer/Create/Undisturbed.antt =====
-- The calls of `create` leave the events as they are, and the tasks that there are.
use danube_py.Prelude.{ℕ, zero, suc, ◌+◌, Option, none, some, ◌≡◌, refl, ◌∙◌, ap}
use danube_py.Errors.{Error}
use danube_py.Exec.{Exec, ◌>>◌}
use danube_py.Exec.Steps.{
  IsPreorder, Steps, Steps-gets, Steps-modify, Steps-bind, Steps-catch, steps_rules,
}
use danube_py.Env.{Env}
use danube_py.Env.Api.{
  ProducerResponse, SchemaReference, VersionRef, unset, use_latest, pinned_version, min_version,
}
use danube_py.Client.{Client, BrokerAddress}
use danube_py.Registry.{SchemaInfo}
use danube_py.TopicProducer as Topic
use danube_py.TopicProducer.{
  TopicProducer, Session, on_client, get_this, set_this, next_request_id, use_address,
  lookup_new_broker, call_metadata,
}
use danube_py.TopicProducer.Schema.{
  pinned, check_version, resolve_reference, resolve, resolve_schema_metadata,
}
use danube_py.TopicProducer.Create.{
  request_numbered, request_producer, register, begin_health_check, adopt, adopt_schema, back_off,
  try_create, after_failure, create_loop, create,
}
use danube_py.Health.Calm.{
  Calm, Calm-preorder, outside-Calm, get_connection-Calm, attach_token-Calm, handle_lookup-Calm,
  start_health_check-Calm, get_schema_version-Calm, get_latest_schema-Calm,
}

module _ {E : Env} where
  -- Nor does the topic producer get another event.
  pub record Undisturbed (s t : Session E) : Type 0 where
    pub client : Calm s.client t.client
    pub stop_event : t.this.stop_event ≡ s.this.stop_event

  pub Undisturbed-preorder : IsPreorder Undisturbed
  Undisturbed-preorder = record {
    reflexive = λ s. record { client = Calm-preorder.reflexive s.client; stop_event = refl };
    transitive = λ s t u f g. record {
      client = Calm-preorder.transitive s.client t.client u.client f.client g.client;
      stop_event = g.stop_event ∙ f.stop_event;
    };
  }

  on_client-Undisturbed :
      {A : Type 0} (m : Exec (Client E) A) → Steps Calm m → Steps Undisturbed (on_client m)
  unfolding on_client
  on_client-Undisturbed m h = record {
    at = λ s. record { client = h.at s.client; stop_event = refl };
  }

  next_request_id-Undisturbed : Steps Undisturbed next_request_id
  unfolding next_request_id
  next_request_id-Undisturbed = record {
    at = λ s. record { client = Calm-preorder.reflexive s.client; stop_event = refl };
  }

  pub get_this-Undisturbed : {A : Type 0} (f : TopicProducer E → A) → Steps Undisturbed (get_this f)
  unfolding get_this
  get_this-Undisturbed f = Steps-gets Undisturbed-preorder _

  pub set_this-Undisturbed :
      (f : TopicProducer E → TopicProducer E)
      → ((p : TopicProducer E) → f p ≡ record (f p) { stop_event = p.stop_event })
      → Steps Undisturbed (set_this f)
  unfolding set_this
  set_this-Undisturbed f h = Steps-modify _ λ s. record {
    client = Calm-preorder.reflexive s.client;
    stop_event = ap (λ p. p.stop_event) (h s.this);
  }

ruleset undisturbed_rules = (
  steps_rules, Undisturbed-preorder, on_client-Undisturbed, get_this-Undisturbed,
  next_request_id-Undisturbed, outside-Calm, get_connection-Calm, attach_token-Calm,
  handle_lookup-Calm, start_health_check-Calm, get_schema_version-Calm, get_latest_schema-Calm,
)

module _ {E : Env} where
  set_stub-Undisturbed :
      (channel : E.Channel)
      → Steps (Undisturbed {E = E}) (set_this λ p. record p { stub = some channel })
  set_stub-Undisturbed channel = set_this-Undisturbed _ λ p. refl

  pub connect-Undisturbed : Steps (Undisturbed {E = E}) Topic.connect
  unfolding Topic.connect
  connect-Undisturbed = search (undisturbed_rules, set_stub-Undisturbed)

  use_address-Undisturbed : (addr : BrokerAddress) → Steps (Undisturbed {E = E}) (use_address addr)
  unfolding use_address
  use_address-Undisturbed addr = set_this-Undisturbed _ λ p. refl

  pub lookup_new_broker-Undisturbed : Steps (Undisturbed {E = E}) lookup_new_broker
  unfolding lookup_new_broker
  lookup_new_broker-Undisturbed = search (undisturbed_rules, use_address-Undisturbed) depth 7

  call_metadata-Undisturbed : Steps (Undisturbed {E = E}) call_metadata
  unfolding call_metadata
  call_metadata-Undisturbed = search undisturbed_rules

  pinned-Undisturbed :
      (ref : SchemaReference) (version : ℕ) (latest : SchemaInfo)
      → Steps (Undisturbed {E = E}) (pinned ref version latest)
  unfolding pinned
  pinned-Undisturbed ref version latest = search undisturbed_rules depth 7

  check_version-Undisturbed :
      (ref : SchemaReference) (v : VersionRef) (latest : SchemaInfo)
      → Steps (Undisturbed {E = E}) (check_version ref v latest)
  unfolding check_version
  check_version-Undisturbed ref unset latest = search undisturbed_rules
  check_version-Undisturbed ref (use_latest b) latest = search undisturbed_rules
  check_version-Undisturbed ref (pinned_version v) latest = pinned-Undisturbed ref v latest
  check_version-Undisturbed ref (min_version v) latest = search undisturbed_rules

  resolve-Undisturbed : (ref : Option SchemaReference) → Steps (Undisturbed {E = E}) (resolve ref)
  unfolding resolve_reference
  resolve-Undisturbed none = search undisturbed_rules
  resolve-Undisturbed (some ref) = search (undisturbed_rules, check_version-Undisturbed)

  resolve_schema_metadata-Undisturbed : Steps (Undisturbed {E = E}) resolve_schema_metadata
  unfolding resolve_schema_metadata
  resolve_schema_metadata-Undisturbed = search (undisturbed_rules, resolve-Undisturbed)

  set_health_task-Undisturbed :
      (task : Option ℕ)
      → Steps (Undisturbed {E = E}) (set_this λ p. record p { health_task = task })
  set_health_task-Undisturbed task = set_this-Undisturbed _ λ p. refl

  begin_health_check-Undisturbed : Steps (Undisturbed {E = E}) begin_health_check
  unfolding begin_health_check
  begin_health_check-Undisturbed = search (undisturbed_rules, set_health_task-Undisturbed) depth 7

  set_schema-Undisturbed :
      (id version : ℕ)
      → Steps
          (Undisturbed {E = E})
          (set_this λ p. record p { schema_id = some id; schema_version = some version })
  set_schema-Undisturbed id version = set_this-Undisturbed _ λ p. refl

  adopt-Undisturbed : (ref : Option SchemaReference) → Steps (Undisturbed {E = E}) (adopt ref)
  adopt-Undisturbed none = search undisturbed_rules
  adopt-Undisturbed (some ref) =
      search (undisturbed_rules, resolve_schema_metadata-Undisturbed, set_schema-Undisturbed)

  pub adopt_schema-Undisturbed : Steps (Undisturbed {E = E}) adopt_schema
  unfolding adopt_schema
  adopt_schema-Undisturbed = search (undisturbed_rules, adopt-Undisturbed)

  pub back_off-Undisturbed : (attempt : ℕ) → Steps (Undisturbed {E = E}) (back_off attempt)
  unfolding back_off
  back_off-Undisturbed attempt = search undisturbed_rules depth 7

  request_numbered-Undisturbed : (n : ℕ) → Steps (Undisturbed {E = E}) (request_numbered n)
  unfolding request_numbered
  request_numbered-Undisturbed n = search (undisturbed_rules, call_metadata-Undisturbed) depth 9

  pub set_producer_id-Undisturbed :
      (id : ℕ) → Steps (Undisturbed {E = E}) (set_this λ p. record p { producer_id = id })
  set_producer_id-Undisturbed id = set_this-Undisturbed _ λ p. refl

  register-Undisturbed : (resp : ProducerResponse) → Steps (Undisturbed {E = E}) (register resp)
  unfolding register
  register-Undisturbed resp =
      search
        (
          undisturbed_rules, set_producer_id-Undisturbed, begin_health_check-Undisturbed,
          adopt_schema-Undisturbed,
        )
        depth 7

  pub request_producer-Undisturbed : Steps (Undisturbed {E = E}) request_producer
  unfolding request_producer
  request_producer-Undisturbed = search (undisturbed_rules, request_numbered-Undisturbed)

  try_create-Undisturbed : Steps (Undisturbed {E = E}) try_create
  unfolding try_create
  try_create-Undisturbed =
      search
        (undisturbed_rules, connect-Undisturbed, request_producer-Undisturbed, register-Undisturbed)

  after_failure-Undisturbed :
      (err : Error) (max_retries attempts : ℕ) (again : Exec (Session E) ℕ)
      → Steps Undisturbed again
      → Steps Undisturbed (after_failure err max_retries attempts again)
  after_failure-Undisturbed err max_retries attempts again h = search undisturbed_rules depth 7

  again-Undisturbed :
      (attempts : ℕ) (rest : Exec (Session E) ℕ)
      → Steps Undisturbed rest
      → Steps Undisturbed (lookup_new_broker >> (back_off attempts >> rest))
  again-Undisturbed attempts rest h =
      search (undisturbed_rules, lookup_new_broker-Undisturbed, back_off-Undisturbed)

  create_loop-Undisturbed :
      (fuel attempts : ℕ) → Steps (Undisturbed {E = E}) (create_loop fuel attempts)
  unfolding create_loop
  create_loop-Undisturbed zero attempts = search undisturbed_rules
  create_loop-Undisturbed (suc fuel) attempts =
      Steps-catch Undisturbed-preorder try_create _ try_create-Undisturbed λ err.
        Steps-bind Undisturbed-preorder _ _ (get_this-Undisturbed _) λ m.
          after_failure-Undisturbed err m attempts _
            (again-Undisturbed attempts _ (create_loop-Undisturbed fuel (attempts + 1)))

  pub create-Undisturbed : Steps (Undisturbed {E = E}) create
  unfolding create
  create-Undisturbed =
      search (undisturbed_rules, lookup_new_broker-Undisturbed, create_loop-Undisturbed) depth 7
