-- ===== src/Consumer/Loop.antt =====
-- `_partition_receive_loop`, one step from one await to the next. Between two steps anything else may
-- happen to the events, the queue and the client.
pub mod Shutdown
pub mod Broken
pub mod Quiet
pub mod Arriving
pub mod Delivery
use danube_py.Prelude.{
  ℕ, ◌+◌, Bool, true, false, Option, none, some, List, [], ◌∷◌, ◌++◌, length, ltb, if◌then◌else◌,
}
use danube_py.Errors.{Error, is_unrecoverable}
use danube_py.Exec.{Exec, pure, gets, modify, catch, zoom, ◌>>=◌, ◌>>◌}
use danube_py.Env.{Env}
use danube_py.Env.Api.{StreamMessage}
use danube_py.Client.{outside, is_set, clear_event}
use danube_py.Retry.{RetryManager, is_retryable, calculate_backoff}
use danube_py.TopicConsumer
use danube_py.TopicConsumer.{Subscriber}
use danube_py.TopicConsumer.Subscribe.{subscribe}
use danube_py.TopicConsumer.Receive
use danube_py.Consumer.{receive_channel_buffer, Phase, opening, reading, putting, ended, Feed}

module _ {E : Env} where
  abbrev pub put_subscriber : Subscriber E → Feed E → Feed E
  put_subscriber t s = record s { this = t.this; client = t.client }

  -- A call on the topic consumer.
  unfoldable pub on_consumer : {A : Type 0} → Exec (Subscriber E) A → Exec (Feed E) A
  unfolding zoom
  on_consumer = zoom (λ s. record { this = s.this; client = s.client }) put_subscriber

  unfoldable pub event_is_set : (Feed E → ℕ) → Exec (Feed E) Bool
  unfolding ◌>>=◌ gets on_consumer TopicConsumer.on_client is_set
  event_is_set event = gets event >>= λ i. on_consumer (TopicConsumer.on_client (is_set i))

  -- `subscribe` again; an exception ends the loop.
  unfoldable pub resubscribe : Exec (Feed E) (Phase E)
  unfolding ◌>>=◌ pure catch on_consumer subscribe
  resubscribe = catch (on_consumer subscribe >> pure (opening 0)) (λ e. pure ended)

  unfoldable pub back_off : RetryManager → ℕ → Exec (Feed E) (Unit {0})
  unfolding ◌>>=◌ modify on_consumer TopicConsumer.on_client outside calculate_backoff
  back_off m attempt = do
    ms ← on_consumer (TopicConsumer.on_client (outside (calculate_backoff E m attempt)))
    on_consumer (TopicConsumer.on_client (outside (modify (E.sleep_ms ms))))

  -- The handlers around `consumer.receive()`.
  abbrev pub after_error : RetryManager → ℕ → Error → Exec (Feed E) (Phase E)
  after_error m attempts err =
      if is_unrecoverable err
      then resubscribe
      else if is_retryable err
      then (if ltb m.max_retries (attempts + 1)
          then resubscribe
          else back_off m attempts >> pure (opening (attempts + 1)))
      else pure ended

  unfoldable pub open_stream : RetryManager → ℕ → Exec (Feed E) (Phase E)
  unfolding ◌>>=◌ pure catch on_consumer Receive.receive resubscribe back_off
  open_stream m attempts =
      catch (on_consumer Receive.receive >>= λ stream. pure (reading stream))
        (after_error m attempts)

  unfoldable pub reopen : Exec (Feed E) (Phase E)
  unfolding ◌>>=◌ gets on_consumer TopicConsumer.on_client clear_event resubscribe
  reopen = gets (λ s. s.this.stop_event) >>= λ i.
      on_consumer (TopicConsumer.on_client (clear_event i)) >> resubscribe

  -- The part of the loop behind `async for`.
  unfoldable pub after_stream : ℕ → Exec (Feed E) (Phase E)
  unfolding ◌>>=◌ pure event_is_set reopen
  after_stream shutdown = event_is_set (λ s. shutdown) >>= λ down.
      if down
      then pure ended
      else (event_is_set (λ s. s.this.stop_event) >>= λ stopped.
          if stopped then reopen else pure (opening 0))

  -- `queue.put`: it waits while the queue is full.
  unfoldable pub put_message : StreamMessage → E.Stream → Exec (Feed E) (Phase E)
  unfolding pure
  put_message message stream s =
      if ltb (length s.queue) receive_channel_buffer
      then pure (reading stream) (record s { queue = s.queue ++ (message ∷ []) })
      else pure (putting message stream) s

  -- The body of `async for`.
  unfoldable pub arrived : ℕ → E.Stream → Option StreamMessage → Exec (Feed E) (Phase E)
  unfolding ◌>>=◌ pure event_is_set after_stream put_message
  arrived shutdown stream none = after_stream shutdown
  arrived shutdown stream (some message) = event_is_set (λ s. shutdown) >>= λ down.
      if down
      then pure ended
      else (event_is_set (λ s. s.this.stop_event) >>= λ stopped.
          if stopped then after_stream shutdown else put_message message stream)

  -- The next message; an exception of the stream ends `async for` like its end.
  unfoldable pub next_message : E.Stream → Exec (Feed E) (Option StreamMessage)
  unfolding pure catch on_consumer TopicConsumer.on_client outside
  next_message stream =
      catch (on_consumer (TopicConsumer.on_client (outside (E.next_message stream))))
        (λ e. pure none)

  unfoldable pub receive_step : RetryManager → ℕ → Phase E → Exec (Feed E) (Phase E)
  unfolding ◌>>=◌ pure event_is_set open_stream next_message arrived put_message
  receive_step m shutdown (opening attempts) =
      event_is_set (λ s. shutdown) >>= λ down. if down then pure ended else open_stream m attempts
  receive_step m shutdown (reading stream) = next_message stream >>= arrived shutdown stream
  receive_step m shutdown (putting message stream) = put_message message stream
  receive_step m shutdown ended = pure ended
