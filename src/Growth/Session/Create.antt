-- ===== src/Growth/Session/Create.antt =====
-- `create` and `stop` of a topic producer.
use danube_py.Prelude.{ℕ, zero, suc, ◌+◌, Option, none, some, refl}
use danube_py.Errors.{Error}
use danube_py.Exec.{◌>>◌, Exec}
use danube_py.Exec.Steps.{Steps, Steps-bind, Steps-catch}
use danube_py.Env.{Env}
use danube_py.Env.Api.{ProducerResponse, SchemaReference}
use danube_py.TopicProducer.{Session, set_this, lookup_new_broker}
use danube_py.TopicProducer.Create.{
  request_numbered, register, request_producer, begin_health_check, adopt, cancel_health,
  adopt_schema, try_create, back_off, after_failure, create_loop, create, stop,
}
use danube_py.Growth.Session.{
  Evolves, Evolves-preorder, session_rules, set_this-Evolves, get_this-Evolves,
}
use danube_py.Growth.Session.Calls.{
  connect-Evolves, lookup_new_broker-Evolves, call_metadata-Evolves,
  resolve_schema_metadata-Evolves,
}

module _ {E : Env} where
  pub request_numbered-Evolves : (n : ℕ) → Steps (Evolves {E = E}) (request_numbered n)
  unfolding request_numbered
  request_numbered-Evolves n = search (session_rules, call_metadata-Evolves) depth 9

  pub request_producer-Evolves : Steps (Evolves {E = E}) request_producer
  unfolding request_producer
  request_producer-Evolves = search (session_rules, request_numbered-Evolves)

  set_health_task-Evolves :
      (task : Option ℕ) → Steps (Evolves {E = E}) (set_this λ p. record p { health_task = task })
  set_health_task-Evolves task = set_this-Evolves _ λ p. refl

  pub set_producer_id-Evolves :
      (id : ℕ) → Steps (Evolves {E = E}) (set_this λ p. record p { producer_id = id })
  set_producer_id-Evolves id = set_this-Evolves _ λ p. refl

  set_schema-Evolves :
      (id version : ℕ)
      → Steps
          (Evolves {E = E})
          (set_this λ p. record p { schema_id = some id; schema_version = some version })
  set_schema-Evolves id version = set_this-Evolves _ λ p. refl

  pub begin_health_check-Evolves : Steps (Evolves {E = E}) begin_health_check
  unfolding begin_health_check
  begin_health_check-Evolves = search (session_rules, set_health_task-Evolves) depth 7

  adopt-Evolves : (ref : Option SchemaReference) → Steps (Evolves {E = E}) (adopt ref)
  adopt-Evolves none = search session_rules
  adopt-Evolves (some ref) =
      search (session_rules, resolve_schema_metadata-Evolves, set_schema-Evolves)

  adopt_schema-Evolves : Steps (Evolves {E = E}) adopt_schema
  unfolding adopt_schema
  adopt_schema-Evolves = search (session_rules, adopt-Evolves)

  pub register-Evolves : (resp : ProducerResponse) → Steps (Evolves {E = E}) (register resp)
  unfolding register
  register-Evolves resp =
      search
        (session_rules, set_producer_id-Evolves, begin_health_check-Evolves, adopt_schema-Evolves)
        depth 7

  try_create-Evolves : Steps (Evolves {E = E}) try_create
  unfolding try_create
  try_create-Evolves =
      search (session_rules, connect-Evolves, request_producer-Evolves, register-Evolves)

  pub back_off-Evolves : (attempt : ℕ) → Steps (Evolves {E = E}) (back_off attempt)
  unfolding back_off
  back_off-Evolves attempt = search session_rules depth 7

  after_failure-Evolves :
      (err : Error) (max_retries attempts : ℕ) (again : Exec (Session E) ℕ)
      → Steps Evolves again
      → Steps Evolves (after_failure err max_retries attempts again)
  after_failure-Evolves err max_retries attempts again h = search session_rules depth 7

  again-Evolves :
      (attempts : ℕ) (rest : Exec (Session E) ℕ)
      → Steps Evolves rest
      → Steps Evolves (lookup_new_broker >> (back_off attempts >> rest))
  again-Evolves attempts rest h =
      search (session_rules, lookup_new_broker-Evolves, back_off-Evolves)

  create_loop-Evolves : (fuel attempts : ℕ) → Steps (Evolves {E = E}) (create_loop fuel attempts)
  unfolding create_loop
  create_loop-Evolves zero attempts = search session_rules
  create_loop-Evolves (suc fuel) attempts =
      Steps-catch Evolves-preorder try_create _ try_create-Evolves λ err.
        Steps-bind Evolves-preorder _ _ (get_this-Evolves _) λ m.
          after_failure-Evolves err m attempts _
            (again-Evolves attempts _ (create_loop-Evolves fuel (attempts + 1)))

  pub create-Evolves : Steps (Evolves {E = E}) create
  unfolding create
  create-Evolves = search (session_rules, lookup_new_broker-Evolves, create_loop-Evolves) depth 7

  cancel_health-Evolves : (task : Option ℕ) → Steps (Evolves {E = E}) (cancel_health task)
  cancel_health-Evolves none = search session_rules
  cancel_health-Evolves (some task) = search (session_rules, set_health_task-Evolves)

  pub stop-Evolves : Steps (Evolves {E = E}) stop
  unfolding stop
  stop-Evolves = search (session_rules, cancel_health-Evolves) depth 7
