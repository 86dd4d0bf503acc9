-- ===== src/Producer/Send.antt =====
-- `Producer.send` and `send_with_key`: choose a partition, then send until it succeeds or fails for
-- good.
pub mod Loop
pub mod Routing
pub mod Refused
pub mod Forever
pub mod Endless
pub mod Accepted
pub mod Recovers
use danube_py.Prelude.{
  ℕ, zero, suc, ◌+◌, String, ℤ, pos, negsuc, Bool, true, Option, none, some, List, leb, ltb,
  if◌then◌else◌, length,
}
use danube_py.Errors.{Error, danube_error, is_unrecoverable}
use danube_py.Exec.{Exec, pure, raise, diverge, modify, catch, ◌>>=◌, ◌>>◌}
use danube_py.Env.{Env}
use danube_py.Env.Api.{Bytes}
use danube_py.Client.{outside}
use danube_py.Lookup.{handle_lookup}
use danube_py.Retry
use danube_py.Retry.{RetryManager, is_retryable, calculate_backoff}
use danube_py.TopicProducer
use danube_py.TopicProducer.{Session, use_address}
use danube_py.TopicProducer.Create.{create}
use danube_py.TopicProducer.Send
use danube_py.Producer.{
  Producer, Work, ProducerOptions, get_this, on_client, on_producer, select_partition,
  select_partition_for_key,
}

module _ {E : Env} where
  unfoldable pub recreate_producer : ℤ → Exec (Work E) ℕ
  unfolding on_producer create
  recreate_producer partition_id = on_producer partition_id create

  -- The topic producer's own part of `_lookup_and_recreate`.
  unfoldable pub relocate : Error → Exec (Session E) ℕ
  unfolding ◌>>=◌ raise catch TopicProducer.get_this TopicProducer.on_client handle_lookup
      use_address create
  relocate original_error = do
    this ← TopicProducer.get_this λ p. p
    addr ←
        catch (TopicProducer.on_client (handle_lookup this.connect_url this.topic))
          (λ e. raise original_error)
    use_address addr
    create

  unfoldable pub lookup_and_recreate : ℤ → Error → Exec (Work E) ℕ
  unfolding on_producer relocate
  lookup_and_recreate partition_id original_error =
      on_producer partition_id (relocate original_error)

  unfoldable pub back_off : RetryManager → ℕ → Exec (Work E) (Unit {0})
  unfolding ◌>>=◌ on_client outside modify calculate_backoff
  back_off m attempt = do
    ms ← on_client (outside (calculate_backoff E m attempt))
    on_client (outside (modify (E.sleep_ms ms)))

  -- The handlers of the loop: `restart` goes on with no failed attempts, `retry` with one more.
  abbrev pub after_failure :
      RetryManager → ℤ → Error → ℕ → Exec (Work E) ℕ → Exec (Work E) ℕ → Exec (Work E) ℕ
  after_failure m partition_id err attempts restart retry =
      if is_unrecoverable err
      then recreate_producer partition_id >> restart
      else if is_retryable err
      then (if ltb m.max_retries (attempts + 1)
          then lookup_and_recreate partition_id err >> restart
          else back_off m attempts >> retry)
      else raise err

  -- `while True`. The loop of the source has no bound; `pending` says that it goes on after `fuel`
  -- calls of `send` on the partition's producer.
  unfoldable pub send_loop :
      RetryManager
      → ℤ
      → Bytes
      → Option (List (String × String))
      → Option String
      → ℕ
      → ℕ
      → Exec (Work E) ℕ
  unfolding ◌>>=◌ raise catch diverge on_producer Send.send recreate_producer lookup_and_recreate
  send_loop m partition_id payload attributes routing_key zero attempts = diverge
  send_loop m partition_id payload attributes routing_key (suc fuel) attempts =
      let restart = send_loop m partition_id payload attributes routing_key fuel 0 in
      let retry = send_loop m partition_id payload attributes routing_key fuel (attempts + 1) in
      catch (on_producer partition_id (Send.send payload attributes routing_key))
        λ err. after_failure m partition_id err attempts restart retry

  abbrev pub in_range : ℤ → Producer E → Bool
  in_range (pos i) p = ltb i (length p.producers)
  in_range (negsuc i) p = true

  -- The part of `send` and `send_with_key` behind the choice of the partition.
  unfoldable pub deliver :
      ℕ → ℤ → Bytes → Option (List (String × String)) → Option String → Exec (Work E) ℕ
  unfolding ◌>>=◌ raise get_this send_loop Retry.new
  deliver fuel partition_id payload attributes routing_key = (get_this λ p. p) >>= λ p.
      if in_range partition_id p
      then send_loop
          (Retry.new p.options.max_retries p.options.base_backoff_ms p.options.max_backoff_ms)
          partition_id payload attributes routing_key fuel 0
      else raise (danube_error "partition ID out of range")

  unfoldable pub send : ℕ → Bytes → Option (List (String × String)) → Exec (Work E) ℕ
  unfolding ◌>>=◌ select_partition deliver
  send fuel payload attributes = do
    partition_id ← select_partition
    deliver fuel partition_id payload attributes none

  unfoldable pub send_with_key :
      ℕ → Bytes → Option (List (String × String)) → String → Exec (Work E) ℕ
  unfolding ◌>>=◌ select_partition_for_key deliver
  send_with_key fuel payload attributes routing_key = do
    partition_id ← select_partition_for_key routing_key
    deliver fuel partition_id payload attributes (some routing_key)
