-- ===== src/Client.antt =====
-- The objects that every producer and consumer of a client shares: danube/client.py's
-- `DanubeClient` with its services, the event loop's events and tasks, and the world outside.
use danube_py.Prelude.{
  ℕ, ◌+◌, String, Bool, false, Option, List, [], ◌∷◌, ◌++◌, length, set, get_or, zero, suc, true,
}
use danube_py.Exec.{Exec, state, zoom, gets, modify}
use danube_py.Env.{Env}
use danube_py.Env.Api.{ClientType}

pub record BrokerAddress : Type 0 where
  pub connect_url : String
  pub broker_url : String
  pub proxy : Bool

-- A task ends by itself, or is cancelled before.
pub data TaskStatus : Type 0 where
  running finished cancelled : TaskStatus

module _ (E : Env) where
  -- A token supplier is called for every request: it may read the world, and it may raise.
  abbrev pub TokenSupplier : Type 0
  TokenSupplier = Exec E.World String

  pub record ConnectionOptions : Type 0 where
    pub use_tls : Bool
    pub tls_credentials : Option E.Credentials
    pub token : String
    pub token_supplier : Option TokenSupplier
    pub internal_broker : String

  pub record RpcConnection : Type 0 where
    pub channel : E.Channel

  abbrev pub Connections : Type 0
  Connections = List (BrokerAddress × RpcConnection)

  -- The dict of connections in the order of insertion. Its lock makes `get_connection` one step.
  pub record ConnectionManager : Type 0 where
    pub options : ConnectionOptions
    pub connections : Connections

  -- A task that `start_health_check` created. `stop_event` is the place of an event that its owner
  -- also holds.
  pub record HealthTask : Type 0 where
    pub channel : E.Channel
    pub connect_url : String
    pub broker_addr : String
    pub proxy : Bool
    pub client_type : ClientType
    pub client_id : ℕ
    pub stop_event : ℕ
    pub status : TaskStatus

  -- `lookup_id` and `health_id` are the next numbers of the two services' `itertools.count`. An
  -- `asyncio.Event` is a place in `events`, and a task a place in `tasks`.
  pub record Client : Type 0 where
    pub uri : String
    pub manager : ConnectionManager
    pub lookup_id : ℕ
    pub health_id : ℕ
    pub events : List Bool
    pub tasks : List HealthTask
    pub world : E.World

-- `task.cancel()` does nothing to a task that has ended.
abbrev pub cancel : TaskStatus → TaskStatus
cancel running = cancelled
cancel status = status

module _ {E : Env} where
  -- What happens outside, such as a call on a stub.
  unfoldable pub outside : {A : Type 0} → Exec E.World A → Exec (Client E) A
  unfolding zoom
  outside = zoom (λ c. c.world) (λ w c. record c { world = w })

  -- `asyncio.Event()`
  unfoldable pub new_event : Exec (Client E) ℕ
  unfolding state
  new_event = state λ c. (length c.events, record c { events = c.events ++ (false ∷ []) })

  unfoldable pub set_event : ℕ → Exec (Client E) (Unit {0})
  unfolding modify
  set_event event = modify λ c. record c { events = set c.events event true }

  unfoldable pub clear_event : ℕ → Exec (Client E) (Unit {0})
  unfolding modify
  clear_event event = modify λ c. record c { events = set c.events event false }

  unfoldable pub is_set : ℕ → Exec (Client E) Bool
  unfolding gets
  is_set event = gets λ c. get_or c.events event false

  -- `asyncio.create_task`
  unfoldable pub create_task : HealthTask E → Exec (Client E) ℕ
  unfolding state
  create_task task = state λ c. (length c.tasks, record c { tasks = c.tasks ++ (task ∷ []) })

  abbrev pub update_task : (TaskStatus → TaskStatus) → List (HealthTask E) → ℕ → List (HealthTask E)
  update_task f [] i = []
  update_task f (t ∷ ts) zero = record t { status = f t.status } ∷ ts
  update_task f (t ∷ ts) (suc i) = t ∷ update_task f ts i

  unfoldable pub cancel_task : ℕ → Exec (Client E) (Unit {0})
  unfolding modify
  cancel_task i = modify λ c. record c { tasks = update_task cancel c.tasks i }

  -- The task returns.
  unfoldable pub finish_task : ℕ → Exec (Client E) (Unit {0})
  unfolding modify
  finish_task i = modify λ c. record c { tasks = update_task (λ _. finished) c.tasks i }

  -- `next(self._request_id)` of the lookup service and of the health check service
  unfoldable pub next_lookup_id : Exec (Client E) ℕ
  unfolding state
  next_lookup_id = state λ c. (c.lookup_id, record c { lookup_id = c.lookup_id + 1 })

  unfoldable pub next_health_id : Exec (Client E) ℕ
  unfolding state
  next_health_id = state λ c. (c.health_id, record c { health_id = c.health_id + 1 })
