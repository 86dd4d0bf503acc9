-- ===== src/Consumer/Loop/Shutdown.antt =====
-- What the receive loop does once the consumer shuts down.
use danube_py.Prelude.{ℕ, true, false, Option, none, some, get_or, ◌≡◌, refl, ap, ◌∙◌, sym, subst}
use danube_py.Errors.{Error, Result, ok, err, pending}
use danube_py.Exec.{pure}
use danube_py.Exec.NoError.{NoError, NoError-err}
use danube_py.Exec.Inversion.{bind_cases, catch_cases}
use danube_py.Env.{Env}
use danube_py.Env.Api.{StreamMessage}
use danube_py.Client.{outside}
use danube_py.Retry.{RetryManager}
use danube_py.TopicConsumer
use danube_py.Consumer.{Phase, opening, reading, putting, ended, Feed}
use danube_py.Consumer.Loop.{
  on_consumer, event_is_set, after_stream, arrived, next_message, receive_step,
}

module _ {E : Env} where
  -- The loop returns, or waits for ever for a message; nothing is queued.
  pub record IsDone (s : Feed E) (x : Result (Phase E) × Feed E) : Type 0 where
    pub done : (phase : Phase E) → x.0 ≡ ok phase → phase ≡ ended
    pub quiet : (e : Error) → x.0 ≡ err e → ⊥
    pub queue : x.1.queue ≡ s.queue

  -- A step that does not wait for room in the queue.
  abbrev pub IsOutside : Phase E → Type 0
  IsOutside (putting message stream) = ⊥
  IsOutside _ = Unit

  after_stream_down :
      (shutdown : ℕ) (s : Feed E)
      → get_or s.client.events shutdown false ≡ true
      → after_stream shutdown s ≡ (ok ended, s)
  unfolding after_stream event_is_set
  after_stream_down shutdown s down = rw down refl

  arrived_down :
      (shutdown : ℕ) (stream : E.Stream) (message : Option StreamMessage) (s : Feed E)
      → get_or s.client.events shutdown false ≡ true
      → arrived shutdown stream message s ≡ (ok ended, s)
  unfolding arrived event_is_set
  arrived_down shutdown stream none s down = after_stream_down shutdown s down
  arrived_down shutdown stream (some message) s down = rw down refl

  opening_down :
      (m : RetryManager) (shutdown attempts : ℕ) (s : Feed E)
      → get_or s.client.events shutdown false ≡ true
      → receive_step m shutdown (opening attempts) s ≡ (ok ended, s)
  unfolding receive_step event_is_set
  opening_down m shutdown attempts s down = rw down refl

  -- Reading a stream touches neither the events nor the queue, and raises nothing.
  abbrev IsRead : Feed E → Result (Option StreamMessage) × Feed E → Type 0
  IsRead s x = NoError x.0 × (x.1.client.events ≡ s.client.events) × (x.1.queue ≡ s.queue)

  next_message-IsRead : (stream : E.Stream) (s : Feed E) → IsRead s (next_message stream s)
  unfolding next_message on_consumer TopicConsumer.on_client outside pure
  next_message-IsRead stream s =
      catch_cases (IsRead s)
        (on_consumer (TopicConsumer.on_client (outside (E.next_message stream)))) (λ e. pure none) s
        (λ a h. (tt, refl, refl)) (λ e h. (tt, refl, refl)) (λ h. (tt, refl, refl))

  ended-IsDone : (s t : Feed E) → t.queue ≡ s.queue → IsDone s (ok ended, t)
  ended-IsDone s t q = record {
    done = λ phase h. cc;
    quiet = λ e h. absurd (NoError-err {r = ok ended} tt h);
    queue = q;
  }

  -- Once the shutdown event is set, a loop that is not waiting for room in the queue returns in its
  -- next step, or waits for the stream for ever; it raises nothing, and the message that it may have
  -- got from the stream is dropped, so the queue is as it was.
  pub receive_step-IsDone :
      (m : RetryManager) (shutdown : ℕ) (phase : Phase E) (s : Feed E)
      → get_or s.client.events shutdown false ≡ true
      → IsOutside phase
      → IsDone s (receive_step m shutdown phase s)
  unfolding receive_step pure
  receive_step-IsDone m shutdown (opening attempts) s down h =
      subst (IsDone s) (sym (opening_down m shutdown attempts s down)) (ended-IsDone s s refl)
  receive_step-IsDone m shutdown (reading stream) s down h =
      let (quiet, events, queue) = next_message-IsRead stream s in
      let t = (next_message stream s).1 in
      bind_cases (IsDone s) (next_message stream) (arrived shutdown stream) s
        (λ message e.
          subst (IsDone s)
            (sym (
              arrived_down shutdown stream message t
                (ap (λ es. get_or es shutdown false) events ∙ down)))
            (ended-IsDone s t queue))
        (λ e k. absurd (NoError-err quiet k))
        (λ k. record {
          done = λ phase x. cc;
          quiet = λ e x. absurd (NoError-err {r = pending} tt x);
          queue = queue;
        })
  receive_step-IsDone m shutdown (putting message stream) s down h = elim h [ ]
  receive_step-IsDone m shutdown ended s down h = ended-IsDone s s refl
