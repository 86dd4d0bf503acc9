-- ===== src/Health/Calm.antt =====
-- The calls of the shared services that `create` makes leave the events as they are, and the tasks that
-- there are.
use danube_py.Prelude.{ℕ, String, Bool, Option, List, [], ◌∷◌, ◌++◌, ◌≡◌, refl, sym, ◌∙◌, ap}
use mathlib.Core.List.{append-nil, append_assoc}
use danube_py.Exec.{Exec}
use danube_py.Exec.Steps.{IsPreorder, Steps, steps_rules}
use danube_py.Env.{Env}
use danube_py.Env.Api.{
  ClientType, LookupType, redirect, connect, failed, unrecognized, TopicLookupResponse,
}
use danube_py.Client.{Client, HealthTask, outside, create_task, next_lookup_id}
use danube_py.Connection.{get_connection}
use danube_py.Auth.{attach_token_if_needed}
use danube_py.Lookup.{lookup_topic, address_of, handle_lookup}
use danube_py.Health.{start_health_check}
use danube_py.Health.Recreated.{get_connection_rest}
use danube_py.Registry.{prepare, get_schema_version, get_latest_schema}

module _ {E : Env} where
  -- No event is set or cleared, and no task is changed; there may be new tasks.
  pub record Calm (c d : Client E) : Type 0 where
    pub events : d.events ≡ c.events
    pub more : List (HealthTask E)
    pub tasks : d.tasks ≡ c.tasks ++ more

  pub Calm-preorder : IsPreorder Calm
  Calm-preorder = record {
    reflexive = λ c. record { events = refl; more = []; tasks = sym (append-nil c.tasks) };
    transitive = λ c d e f g. record {
      events = g.events ∙ f.events;
      more = f.more ++ g.more;
      tasks = g.tasks ∙ ap (λ l. l ++ g.more) f.tasks ∙ append_assoc c.tasks f.more g.more;
    };
  }

  pub outside-Calm : {A : Type 0} (m : Exec E.World A) → Steps Calm (outside m)
  unfolding outside
  outside-Calm m = record {
    at = λ c. record { events = refl; more = []; tasks = sym (append-nil c.tasks) };
  }

  create_task-Calm : (t : HealthTask E) → Steps Calm (create_task t)
  unfolding create_task
  create_task-Calm t = record { at = λ c. record { events = refl; more = t ∷ []; tasks = refl } }

  next_lookup_id-Calm : Steps Calm next_lookup_id
  unfolding next_lookup_id
  next_lookup_id-Calm = record {
    at = λ c. record { events = refl; more = []; tasks = sym (append-nil c.tasks) };
  }

  pub get_connection-Calm : (addr url : String) → Steps Calm (get_connection addr url)
  get_connection-Calm addr url = record {
    at = λ c.
        let (conn, d, e, events, tasks) = get_connection_rest addr url c in
        record {
          events = ap (λ x. x.1.events) e ∙ events;
          more = [];
          tasks = ap (λ x. x.1.tasks) e ∙ tasks ∙ sym (append-nil c.tasks);
        };
  }

ruleset calm_rules = (
  steps_rules, Calm-preorder, outside-Calm, create_task-Calm, next_lookup_id-Calm,
  get_connection-Calm,
)

module _ {E : Env} where
  pub attach_token-Calm : (addr : String) → Steps (Calm {E = E}) (attach_token_if_needed addr)
  unfolding attach_token_if_needed
  attach_token-Calm addr = search calm_rules

  lookup_topic-Calm : (addr topic : String) → Steps (Calm {E = E}) (lookup_topic addr topic)
  unfolding lookup_topic
  lookup_topic-Calm addr topic = search (calm_rules, attach_token-Calm)

  address_of-Calm :
      (t : LookupType) (r : TopicLookupResponse) → Steps (Calm {E = E}) (address_of t r)
  unfolding address_of
  address_of-Calm redirect r = search calm_rules
  address_of-Calm connect r = search calm_rules
  address_of-Calm failed r = search calm_rules
  address_of-Calm (unrecognized n) r = search calm_rules

  pub handle_lookup-Calm : (addr topic : String) → Steps (Calm {E = E}) (handle_lookup addr topic)
  unfolding handle_lookup
  handle_lookup-Calm addr topic = search (calm_rules, lookup_topic-Calm, address_of-Calm)

  pub start_health_check-Calm :
      (a b : String) (proxy : Bool) (t : ClientType) (id event : ℕ)
      → Steps (Calm {E = E}) (start_health_check a b proxy t id event)
  unfolding start_health_check
  start_health_check-Calm a b proxy t id event = search calm_rules

  prepare-Calm : (addr : String) → Steps (Calm {E = E}) (prepare addr)
  unfolding prepare
  prepare-Calm addr = search (calm_rules, attach_token-Calm)

  pub get_schema_version-Calm :
      (id : ℕ) (version : Option ℕ) → Steps (Calm {E = E}) (get_schema_version id version)
  unfolding get_schema_version
  get_schema_version-Calm id version = search (calm_rules, prepare-Calm)

  pub get_latest_schema-Calm : (subject : String) → Steps (Calm {E = E}) (get_latest_schema subject)
  unfolding get_latest_schema
  get_latest_schema-Calm subject = search (calm_rules, prepare-Calm)
