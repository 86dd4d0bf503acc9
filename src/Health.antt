-- ===== src/Health.antt =====
-- danube/health_check.py: the task that asks the broker whether the topic is still served here.
pub mod Silence
pub mod Recreated
pub mod Calm
use danube_py.Prelude.{ℕ, String, Bool, Option, none, some, if◌then◌else◌, get_elem?}
use danube_py.Errors.{Error}
use danube_py.Exec.{Exec, pure, gets, catch, ◌>>=◌, ◌>>◌}
use danube_py.Env.{Env}
use danube_py.Env.Api.{ClientType, ClientStatus, healthy, close, other_status, HealthCheckRequest}
use danube_py.Client.{
  Client, HealthTask, TaskStatus, running, finished, cancelled, outside, set_event, is_set,
  create_task, finish_task, next_health_id,
}
use danube_py.Connection.{get_connection}
use danube_py.Auth.{attach_token_if_needed}
use danube_py.Retry.{insert_proxy_header}

abbrev pub health_check_interval_secs : ℕ
health_check_interval_secs = 5

module _ {E : Env} where
  unfoldable pub start_health_check :
      String → String → Bool → ClientType → ℕ → ℕ → Exec (Client E) ℕ
  unfolding ◌>>=◌ get_connection create_task
  start_health_check connect_url broker_addr proxy client_type client_id stop_event = do
    conn ← get_connection broker_addr connect_url
    create_task (record {
      channel = conn.channel;
      connect_url = connect_url;
      broker_addr = broker_addr;
      proxy = proxy;
      client_type = client_type;
      client_id = client_id;
      stop_event = stop_event;
      status = running;
    })

  -- One `stub.HealthCheck`
  unfoldable pub ask : HealthTask E → Exec (Client E) ClientStatus
  unfolding ◌>>=◌ outside attach_token_if_needed insert_proxy_header next_health_id
  ask t = do
    id ← next_health_id
    metadata ← attach_token_if_needed t.connect_url
    outside (
        E.health_check t.channel
          (record { request_id = id; client = t.client_type; id = t.client_id })
          (insert_proxy_header metadata t.broker_addr t.proxy))

  abbrev pub after_answer : ℕ → HealthTask E → ClientStatus → Exec (Client E) (Unit {0})
  after_answer i t close = set_event t.stop_event >> finish_task i
  after_answer i t healthy = pure tt
  after_answer i t (other_status _) = pure tt

  -- A round of `_loop` of a task that was not cancelled, from one sleep to the next. Every error
  -- ends the task.
  unfoldable pub running_round : ℕ → HealthTask E → Exec (Client E) (Unit {0})
  unfolding ◌>>=◌ pure catch is_set set_event finish_task ask
  running_round i t = do
    stopped ← is_set t.stop_event
    if stopped then finish_task i else catch (ask t >>= after_answer i t) (λ e. finish_task i)

  abbrev pub dispatch : ℕ → HealthTask E → TaskStatus → Exec (Client E) (Unit {0})
  dispatch i t running = running_round i t
  dispatch i t finished = pure tt
  dispatch i t cancelled = pure tt

  abbrev pub round_of : ℕ → Option (HealthTask E) → Exec (Client E) (Unit {0})
  round_of i none = pure tt
  round_of i (some t) = dispatch i t t.status

  -- What task `i` does when the event loop wakes it up.
  unfoldable pub health_round : ℕ → Exec (Client E) (Unit {0})
  unfolding ◌>>=◌ pure gets running_round
  health_round i = (gets λ c. get_elem? c.tasks i) >>= round_of i
