-- ===== src/TopicProducer/Create.antt =====
-- `TopicProducer.create` and `stop`: register with the broker, again after an error that may pass.
pub mod Undisturbed
pub mod Ending
pub mod Watched
pub mod Adopted
pub mod Numbers
pub mod Counting
pub mod Rounds
pub mod Accepted
use danube_py.Prelude.{ℕ, zero, suc, ◌+◌, Option, none, some, ltb, if◌then◌else◌}
use danube_py.Errors.{Error, attribute_error}
use danube_py.Exec.{Exec, pure, raise, diverge, gets, modify, catch, or_raise, ◌>>=◌, ◌>>◌}
use danube_py.Env.{Env, Metadata}
use danube_py.Env.Api.{SchemaReference, shared, ProducerRequest, ProducerResponse, producer}
use danube_py.Client.{Client, outside, set_event, cancel_task}
use danube_py.Health.{start_health_check}
use danube_py.Retry.{is_retryable, calculate_backoff}
use danube_py.TopicProducer.{
  TopicProducer, Session, on_client, get_this, set_this, next_request_id, connect,
  lookup_new_broker, call_metadata, create_error, to_proto,
}
use danube_py.TopicProducer.Schema.{resolve_schema_metadata}

module _ {E : Env} where
  abbrev pub producer_request : TopicProducer E → ℕ → ProducerRequest
  producer_request p request_id = record {
    request_id = request_id;
    producer_name = p.producer_name;
    topic_name = p.topic;
    schema_ref = p.schema_ref;
    producer_access_mode = shared;
    dispatch_strategy = to_proto p.dispatch_strategy;
  }

  -- The call on the stub, with the `except` around it.
  unfoldable pub request_numbered : ℕ → Exec (Session E) ProducerResponse
  unfolding ◌>>=◌ pure raise catch on_client outside get_this call_metadata create_error to_proto
  request_numbered request_id = do
    this ← get_this λ p. p
    metadata ← call_metadata
    channel ← or_raise this.stub attribute_error
    catch
        (on_client
          (outside (E.create_producer channel (producer_request this request_id) metadata)))
        (λ e. raise (create_error e))

  unfoldable pub request_producer : Exec (Session E) ProducerResponse
  unfolding ◌>>=◌ next_request_id request_numbered
  request_producer = next_request_id >>= request_numbered

  unfoldable pub begin_health_check : Exec (Session E) (Unit {0})
  unfolding ◌>>=◌ on_client get_this set_this start_health_check
  begin_health_check = do
    p ← get_this λ p. p
    task ←
        on_client (
          start_health_check p.connect_url p.broker_addr p.proxy producer p.producer_id
            p.stop_event)
    set_this λ p. record p { health_task = some task }

  abbrev pub adopt : Option SchemaReference → Exec (Session E) (Unit {0})
  adopt none = pure tt
  adopt (some _) = resolve_schema_metadata >>= λ r.
      set_this λ p. record p { schema_id = some r.0; schema_version = some r.1 }

  unfoldable pub adopt_schema : Exec (Session E) (Unit {0})
  unfolding ◌>>=◌ pure get_this set_this resolve_schema_metadata
  adopt_schema = (get_this λ p. p.schema_ref) >>= adopt

  -- What follows the broker's answer.
  unfoldable pub register : ProducerResponse → Exec (Session E) ℕ
  unfolding ◌>>=◌ begin_health_check adopt_schema get_this set_this
  register resp = do
    set_this λ p. record p { producer_id = resp.producer_id }
    begin_health_check
    adopt_schema
    get_this λ p. p.producer_id

  unfoldable pub try_create : Exec (Session E) ℕ
  unfolding ◌>>=◌ connect request_producer register
  try_create = connect >> (request_producer >>= register)

  -- `asyncio.sleep(self.retry_manager.calculate_backoff(attempt))`
  unfoldable pub back_off : ℕ → Exec (Session E) (Unit {0})
  unfolding ◌>>=◌ on_client outside get_this modify calculate_backoff
  back_off attempt = do
    m ← get_this λ p. p.retry_manager
    ms ← on_client (outside (calculate_backoff E m attempt))
    on_client (outside (modify (E.sleep_ms ms)))

  -- An attempt has failed, and `attempts` have failed before it.
  abbrev pub after_failure : Error → ℕ → ℕ → Exec (Session E) ℕ → Exec (Session E) ℕ
  after_failure err max_retries attempts again =
      if is_retryable err
      then (if ltb max_retries (attempts + 1) then raise err else again)
      else raise err

  -- `while True` with the number of failed attempts so far.
  unfoldable pub create_loop : ℕ → ℕ → Exec (Session E) ℕ
  unfolding ◌>>=◌ raise catch diverge get_this try_create lookup_new_broker back_off is_retryable
  create_loop zero attempts = diverge
  create_loop (suc fuel) attempts =
      let again = lookup_new_broker >> (back_off attempts >> create_loop fuel (attempts + 1)) in
      catch try_create λ err. (get_this λ p. p.retry_manager.max_retries) >>= λ max_retries.
      after_failure err max_retries attempts again

  -- Rounds for every attempt that the settings allow.
  unfoldable pub create : Exec (Session E) ℕ
  unfolding create_loop
  create = do
    lookup_new_broker
    max_retries ← get_this λ p. p.retry_manager.max_retries
    create_loop (suc max_retries) 0

  abbrev pub cancel_health : Option ℕ → Exec (Session E) (Unit {0})
  cancel_health none = pure tt
  cancel_health (some task) =
      on_client (cancel_task task) >> set_this λ p. record p { health_task = none }

  unfoldable pub stop : Exec (Session E) (Unit {0})
  unfolding ◌>>=◌ pure on_client get_this set_this set_event cancel_task
  stop = do p ← get_this λ p. p; on_client (set_event p.stop_event); cancel_health p.health_task
