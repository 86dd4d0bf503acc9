-- ===== src/TopicConsumer/Subscribe.antt =====
-- `TopicConsumer.subscribe` and `stop`: register with the broker, again after an error that may pass.
pub mod Counting
pub mod Rounds
use danube_py.Prelude.{ℕ, zero, suc, ◌+◌, Option, none, some, ltb, if◌then◌else◌}
use danube_py.Errors.{Error, attribute_error}
use danube_py.Exec.{Exec, pure, raise, diverge, modify, catch, or_raise, ◌>>=◌, ◌>>◌}
use danube_py.Env.{Env}
use danube_py.Env.Api.{ConsumerRequest, ConsumerResponse, consumer}
use danube_py.Client.{outside, set_event, cancel_task}
use danube_py.Health.{start_health_check}
use danube_py.Retry.{is_retryable, calculate_backoff}
use danube_py.TopicConsumer.{
  TopicConsumer, Subscriber, on_client, get_this, set_this, next_request_id, connect,
  lookup_new_broker, call_metadata, subscribe_error,
}

module _ {E : Env} where
  abbrev pub consumer_request : TopicConsumer E → ℕ → ConsumerRequest
  consumer_request c request_id = record {
    request_id = request_id;
    topic_name = c.topic_name;
    consumer_name = c.consumer_name;
    subscription = c.subscription;
    subscription_type = c.subscription_type;
    key_filters = c.key_filters;
  }

  -- The call on the stub, with the `except` around it.
  unfoldable pub subscribe_numbered : ℕ → Exec (Subscriber E) ConsumerResponse
  unfolding ◌>>=◌ pure raise catch on_client outside get_this call_metadata subscribe_error
  subscribe_numbered request_id = do
    this ← get_this λ c. c
    metadata ← call_metadata
    channel ← or_raise this.stub attribute_error
    catch (on_client (outside (E.subscribe channel (consumer_request this request_id) metadata)))
        (λ e. raise (subscribe_error e))

  unfoldable pub begin_health_check : Exec (Subscriber E) (Unit {0})
  unfolding ◌>>=◌ on_client get_this set_this start_health_check
  begin_health_check = do
    c ← get_this λ c. c
    task ←
        on_client (
          start_health_check c.connect_url c.broker_addr c.proxy consumer c.consumer_id
            c.stop_event)
    set_this λ c. record c { health_task = some task }

  -- What follows the broker's answer.
  unfoldable pub register : ConsumerResponse → Exec (Subscriber E) ℕ
  unfolding ◌>>=◌ begin_health_check get_this set_this
  register resp = do
    set_this λ c. record c { consumer_id = resp.consumer_id }
    begin_health_check
    get_this λ c. c.consumer_id

  unfoldable pub try_subscribe : Exec (Subscriber E) ℕ
  unfolding ◌>>=◌ connect next_request_id subscribe_numbered register
  try_subscribe = connect >> (next_request_id >>= subscribe_numbered >>= register)

  unfoldable pub back_off : ℕ → Exec (Subscriber E) (Unit {0})
  unfolding ◌>>=◌ on_client outside get_this modify calculate_backoff
  back_off attempt = do
    m ← get_this λ c. c.retry_manager
    ms ← on_client (outside (calculate_backoff E m attempt))
    on_client (outside (modify (E.sleep_ms ms)))

  -- An attempt has failed, and `attempts` have failed before it.
  abbrev pub after_failure : Error → ℕ → ℕ → Exec (Subscriber E) ℕ → Exec (Subscriber E) ℕ
  after_failure err max_retries attempts again =
      if is_retryable err
      then (if ltb max_retries (attempts + 1) then raise err else again)
      else raise err

  -- `while True` with the number of failed attempts so far.
  unfoldable pub subscribe_loop : ℕ → ℕ → Exec (Subscriber E) ℕ
  unfolding ◌>>=◌ raise catch diverge get_this try_subscribe lookup_new_broker back_off is_retryable
  subscribe_loop zero attempts = diverge
  subscribe_loop (suc fuel) attempts =
      let again = lookup_new_broker >> (back_off attempts >> subscribe_loop fuel (attempts + 1)) in
      catch try_subscribe λ err. (get_this λ c. c.retry_manager.max_retries) >>= λ max_retries.
      after_failure err max_retries attempts again

  -- Rounds for every attempt that the settings allow.
  unfoldable pub subscribe : Exec (Subscriber E) ℕ
  unfolding subscribe_loop
  subscribe = do
    lookup_new_broker
    max_retries ← get_this λ c. c.retry_manager.max_retries
    subscribe_loop (suc max_retries) 0

  abbrev pub cancel_health : Option ℕ → Exec (Subscriber E) (Unit {0})
  cancel_health none = pure tt
  cancel_health (some task) =
      on_client (cancel_task task) >> set_this λ c. record c { health_task = none }

  unfoldable pub stop : Exec (Subscriber E) (Unit {0})
  unfolding ◌>>=◌ pure on_client get_this set_this set_event cancel_task
  stop = do c ← get_this λ c. c; on_client (set_event c.stop_event); cancel_health c.health_task
