-- ===== src/TopicProducer/Create/Counting.antt =====
-- The calls that give out no request number.
use danube_py.Prelude.{ℕ, Option, none, some, ◌≡◌, refl, ◌∙◌, ap}
use danube_py.Exec.{Exec}
use danube_py.Exec.Steps.{IsPreorder, Steps, Steps-gets, Steps-modify, steps_rules}
use danube_py.Env.{Env}
use danube_py.Env.Api.{
  ProducerResponse, SchemaReference, VersionRef, unset, use_latest, pinned_version, min_version,
}
use danube_py.Client.{Client, BrokerAddress}
use danube_py.Registry.{SchemaInfo}
use danube_py.TopicProducer.{
  TopicProducer, Session, on_client, get_this, set_this, connect, use_address, lookup_new_broker,
  call_metadata,
}
use danube_py.TopicProducer.Schema.{
  pinned, check_version, resolve_reference, resolve, resolve_schema_metadata,
}
use danube_py.TopicProducer.Create.{
  request_numbered, register, begin_health_check, adopt, adopt_schema, back_off,
}

module _ {E : Env} where
  -- The next request number and the retry settings stay.
  pub record Same (s t : Session E) : Type 0 where
    pub request_id : t.this.request_id ≡ s.this.request_id
    pub retry_manager : t.this.retry_manager ≡ s.this.retry_manager

  pub Same-preorder : IsPreorder Same
  Same-preorder = record {
    reflexive = λ s. record { request_id = refl; retry_manager = refl };
    transitive = λ s t u f g. record {
      request_id = g.request_id ∙ f.request_id;
      retry_manager = g.retry_manager ∙ f.retry_manager;
    };
  }

  pub on_client-Same : {A : Type 0} (m : Exec (Client E) A) → Steps Same (on_client m)
  unfolding on_client
  on_client-Same m = record { at = λ s. record { request_id = refl; retry_manager = refl } }

  pub get_this-Same : {A : Type 0} (f : TopicProducer E → A) → Steps Same (get_this f)
  unfolding get_this
  get_this-Same f = Steps-gets Same-preorder _

  pub set_this-Same :
      (f : TopicProducer E → TopicProducer E)
      → ((p : TopicProducer E)
          → f p ≡ record (f p) { request_id = p.request_id; retry_manager = p.retry_manager })
      → Steps Same (set_this f)
  unfolding set_this
  set_this-Same f h = Steps-modify _ λ s. record {
    request_id = ap (λ p. p.request_id) (h s.this);
    retry_manager = ap (λ p. p.retry_manager) (h s.this);
  }

pub ruleset same_rules = (steps_rules, Same-preorder, on_client-Same, get_this-Same)

module _ {E : Env} where
  set_stub-Same :
      (channel : E.Channel) → Steps (Same {E = E}) (set_this λ p. record p { stub = some channel })
  set_stub-Same channel = set_this-Same _ λ p. refl

  pub connect-Same : Steps (Same {E = E}) connect
  unfolding connect
  connect-Same = search (same_rules, set_stub-Same)

  use_address-Same : (addr : BrokerAddress) → Steps (Same {E = E}) (use_address addr)
  unfolding use_address
  use_address-Same addr = set_this-Same _ λ p. refl

  pub lookup_new_broker-Same : Steps (Same {E = E}) lookup_new_broker
  unfolding lookup_new_broker
  lookup_new_broker-Same = search (same_rules, use_address-Same) depth 7

  pub call_metadata-Same : Steps (Same {E = E}) call_metadata
  unfolding call_metadata
  call_metadata-Same = search same_rules

  pinned-Same :
      (ref : SchemaReference) (version : ℕ) (latest : SchemaInfo)
      → Steps (Same {E = E}) (pinned ref version latest)
  unfolding pinned
  pinned-Same ref version latest = search same_rules depth 7

  check_version-Same :
      (ref : SchemaReference) (v : VersionRef) (latest : SchemaInfo)
      → Steps (Same {E = E}) (check_version ref v latest)
  unfolding check_version
  check_version-Same ref unset latest = search same_rules
  check_version-Same ref (use_latest b) latest = search same_rules
  check_version-Same ref (pinned_version v) latest = pinned-Same ref v latest
  check_version-Same ref (min_version v) latest = search same_rules

  resolve-Same : (ref : Option SchemaReference) → Steps (Same {E = E}) (resolve ref)
  unfolding resolve_reference
  resolve-Same none = search same_rules
  resolve-Same (some ref) = search (same_rules, check_version-Same)

  resolve_schema_metadata-Same : Steps (Same {E = E}) resolve_schema_metadata
  unfolding resolve_schema_metadata
  resolve_schema_metadata-Same = search (same_rules, resolve-Same)

  set_health_task-Same :
      (task : Option ℕ) → Steps (Same {E = E}) (set_this λ p. record p { health_task = task })
  set_health_task-Same task = set_this-Same _ λ p. refl

  pub begin_health_check-Same : Steps (Same {E = E}) begin_health_check
  unfolding begin_health_check
  begin_health_check-Same = search (same_rules, set_health_task-Same) depth 7

  set_schema-Same :
      (id version : ℕ)
      → Steps
          (Same {E = E})
          (set_this λ p. record p { schema_id = some id; schema_version = some version })
  set_schema-Same id version = set_this-Same _ λ p. refl

  adopt-Same : (ref : Option SchemaReference) → Steps (Same {E = E}) (adopt ref)
  adopt-Same none = search same_rules
  adopt-Same (some ref) = search (same_rules, resolve_schema_metadata-Same, set_schema-Same)

  pub adopt_schema-Same : Steps (Same {E = E}) adopt_schema
  unfolding adopt_schema
  adopt_schema-Same = search (same_rules, adopt-Same)

  pub back_off-Same : (attempt : ℕ) → Steps (Same {E = E}) (back_off attempt)
  unfolding back_off
  back_off-Same attempt = search same_rules depth 7

  pub request_numbered-Same : (n : ℕ) → Steps (Same {E = E}) (request_numbered n)
  unfolding request_numbered
  request_numbered-Same n = search (same_rules, call_metadata-Same) depth 9

  set_producer_id-Same :
      (id : ℕ) → Steps (Same {E = E}) (set_this λ p. record p { producer_id = id })
  set_producer_id-Same id = set_this-Same _ λ p. refl

  pub register-Same : (resp : ProducerResponse) → Steps (Same {E = E}) (register resp)
  unfolding register
  register-Same resp =
      search (same_rules, set_producer_id-Same, begin_health_check-Same, adopt_schema-Same) depth 7
