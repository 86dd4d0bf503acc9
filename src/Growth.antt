-- ===== src/Growth.antt =====
-- The calls of the shared services change the client only as `Grows` allows.
pub mod Session
pub mod Subscriber
pub mod Feed
pub mod Work
pub mod Producing
pub mod Group
pub mod Administration
use danube_py.Prelude.{ℕ, String, Bool, Option, none, some}
use danube_py.Exec.{Exec}
use danube_py.Exec.Steps.{
  Steps, Steps-pure, Steps-gets, Steps-bind, Steps-catch, Steps-if, steps_rules,
}
use danube_py.Env.{Env}
use danube_py.Env.Api.{
  ClientType, ClientStatus, healthy, close, other_status, LookupType, redirect, connect, failed,
  unrecognized, TopicLookupResponse,
}
use danube_py.Client.{Client, is_set, HealthTask, TaskStatus, running, finished, cancelled}
use danube_py.Connection.Growth.{
  Grows, Grows-preorder, outside-Grows, set_event-Grows, create_task-Grows, finish_task-Grows,
  next_lookup_id-Grows, next_health_id-Grows, get_connection-Grows,
}
use danube_py.Auth.{attach_token_if_needed}
use danube_py.Lookup.{lookup_topic, topic_partitions, address_of, handle_lookup}
use danube_py.Health.{
  start_health_check, ask, after_answer, dispatch, round_of, running_round, health_round,
}
use danube_py.Registry.{prepare, get_schema_version, get_latest_schema}

pub ruleset client_rules = (
  steps_rules, Grows-preorder, outside-Grows, set_event-Grows, create_task-Grows, finish_task-Grows,
  next_lookup_id-Grows, next_health_id-Grows, get_connection-Grows,
)

module _ {E : Env} where
  pub attach_token-Grows : (addr : String) → Steps (Grows {E = E}) (attach_token_if_needed addr)
  unfolding attach_token_if_needed
  attach_token-Grows addr = search client_rules

  lookup_topic-Grows : (addr topic : String) → Steps (Grows {E = E}) (lookup_topic addr topic)
  unfolding lookup_topic
  lookup_topic-Grows addr topic = search (client_rules, attach_token-Grows)

  pub topic_partitions-Grows :
      (addr topic : String) → Steps (Grows {E = E}) (topic_partitions addr topic)
  unfolding topic_partitions
  topic_partitions-Grows addr topic = search (client_rules, attach_token-Grows) depth 8

  address_of-Grows :
      (t : LookupType) (r : TopicLookupResponse) → Steps (Grows {E = E}) (address_of t r)
  unfolding address_of
  address_of-Grows redirect r = search client_rules
  address_of-Grows connect r = search client_rules
  address_of-Grows failed r = search client_rules
  address_of-Grows (unrecognized n) r = search client_rules

  pub handle_lookup-Grows : (addr topic : String) → Steps (Grows {E = E}) (handle_lookup addr topic)
  unfolding handle_lookup
  handle_lookup-Grows addr topic = search (client_rules, lookup_topic-Grows, address_of-Grows)

  pub start_health_check-Grows :
      (a b : String) (proxy : Bool) (t : ClientType) (id event : ℕ)
      → Steps (Grows {E = E}) (start_health_check a b proxy t id event)
  unfolding start_health_check
  start_health_check-Grows a b proxy t id event = search client_rules

  ask-Grows : (t : HealthTask E) → Steps Grows (ask t)
  unfolding ask
  ask-Grows t = search (client_rules, attach_token-Grows)

  pub is_set-Grows : (i : ℕ) → Steps (Grows {E = E}) (is_set i)
  unfolding is_set
  is_set-Grows i = search client_rules

  after_answer-Grows :
      (i : ℕ) (t : HealthTask E) (s : ClientStatus) → Steps Grows (after_answer i t s)
  after_answer-Grows i t healthy = search client_rules
  after_answer-Grows i t close = search client_rules
  after_answer-Grows i t (other_status n) = search client_rules

  running_round-Grows : (i : ℕ) (t : HealthTask E) → Steps Grows (running_round i t)
  unfolding running_round
  running_round-Grows i t = search (client_rules, ask-Grows, is_set-Grows, after_answer-Grows)

  pub prepare-Grows : (addr : String) → Steps (Grows {E = E}) (prepare addr)
  unfolding prepare
  prepare-Grows addr = search (client_rules, attach_token-Grows)

  pub get_schema_version-Grows :
      (id : ℕ) (version : Option ℕ) → Steps (Grows {E = E}) (get_schema_version id version)
  unfolding get_schema_version
  get_schema_version-Grows id version = search (client_rules, prepare-Grows)

  pub get_latest_schema-Grows :
      (subject : String) → Steps (Grows {E = E}) (get_latest_schema subject)
  unfolding get_latest_schema
  get_latest_schema-Grows subject = search (client_rules, prepare-Grows)

  dispatch-Grows : (i : ℕ) (t : HealthTask E) (s : TaskStatus) → Steps Grows (dispatch i t s)
  dispatch-Grows i t running = running_round-Grows i t
  dispatch-Grows i t finished = search client_rules
  dispatch-Grows i t cancelled = search client_rules

  round_of-Grows : (i : ℕ) (found : Option (HealthTask E)) → Steps Grows (round_of i found)
  round_of-Grows i none = search client_rules
  round_of-Grows i (some t) = dispatch-Grows i t t.status

  pub health_round-Grows : (i : ℕ) → Steps (Grows {E = E}) (health_round i)
  unfolding health_round
  health_round-Grows i = search (client_rules, round_of-Grows)
