-- ===== src/Growth/Feed.antt =====
-- A step of a receive loop: what it leaves of the queue, the topic consumer and the client.
use danube_py.Prelude.{
  ℕ, ◌≤◌, Option, none, some, List, [], ◌∷◌, ◌++◌, length, length-append, ltb, ◌≡◌, refl, sym, ap,
  ◌∙◌, arith, Bool-cases, inl, inr, ltb→lt,
}
use mathlib.Core.List.{append-nil, append_assoc}
use danube_py.Errors.{Error}
use danube_py.Exec.{Exec, pure}
use danube_py.Exec.Steps.{IsPreorder, Steps, Steps-if, Steps-bind, Steps-pure, steps_rules}
use danube_py.Env.{Env}
use danube_py.Env.Api.{StreamMessage}
use danube_py.Connection.Growth.{outside-Grows, clear_event-Grows}
use danube_py.Growth.{is_set-Grows}
use danube_py.Growth.Subscriber.{
  Evolves, Evolves-preorder, on_client-Evolves, subscribe-Evolves, receive-Evolves,
}
use danube_py.Retry.{RetryManager}
use danube_py.TopicConsumer.{Subscriber}
use danube_py.Consumer.{receive_channel_buffer, Phase, opening, reading, putting, ended, Feed}
use danube_py.Consumer.Loop.{
  on_consumer, event_is_set, resubscribe, back_off, after_error, open_stream, reopen, after_stream,
  put_message, arrived, next_message, receive_step,
}

module _ {E : Env} where
  -- Messages are only added, behind those that are there and up to the capacity of the queue; the
  -- topic consumer and the client evolve.
  pub record Feeds (s t : Feed E) : Type 0 where
    pub added : List StreamMessage
    pub queue : t.queue ≡ s.queue ++ added
    pub bounded : length s.queue ≤ receive_channel_buffer → length t.queue ≤ receive_channel_buffer
    pub consumer :
        Evolves
          (record { this = s.this; client = s.client })
          (record { this = t.this; client = t.client })

  Feeds-preorder : IsPreorder Feeds
  Feeds-preorder = record {
    reflexive = λ s. record {
      added = [];
      queue = sym (append-nil s.queue);
      bounded = λ h. h;
      consumer = Evolves-preorder.reflexive _;
    };
    transitive = λ s t u f g. record {
      added = f.added ++ g.added;
      queue = g.queue ∙ ap (λ q. q ++ g.added) f.queue ∙ append_assoc s.queue f.added g.added;
      bounded = λ h. g.bounded (f.bounded h);
      consumer = Evolves-preorder.transitive _ _ _ f.consumer g.consumer;
    };
  }

  on_consumer-Feeds :
      {A : Type 0} (m : Exec (Subscriber E) A) → Steps Evolves m → Steps Feeds (on_consumer m)
  unfolding on_consumer
  on_consumer-Feeds m h = record {
    at = λ s. record {
      added = [];
      queue = sym (append-nil s.queue);
      bounded = λ b. b;
      consumer = h.at (record { this = s.this; client = s.client });
    };
  }

  put_message-Feeds :
      (message : StreamMessage) (stream : E.Stream) → Steps Feeds (put_message message stream)
  unfolding put_message pure
  put_message-Feeds message stream = record {
    at = λ s. elim (Bool-cases (ltb (length s.queue) receive_channel_buffer)) [
      | inl room ↦ rw room (record {
        added = message ∷ [];
        queue = refl;
        bounded = λ h. omega (arith, ltb→lt _ _ room, length-append s.queue (message ∷ []));
        consumer = Evolves-preorder.reflexive _;
      })
      | inr full ↦ rw full (Feeds-preorder.reflexive s)
    ];
  }

ruleset feed_rules = (
  steps_rules, Feeds-preorder, on_consumer-Feeds, Evolves-preorder, on_client-Evolves,
  outside-Grows, clear_event-Grows, is_set-Grows, subscribe-Evolves, receive-Evolves,
)

module _ {E : Env} where
  event_is_set-Feeds : (event : Feed E → ℕ) → Steps Feeds (event_is_set event)
  unfolding event_is_set
  event_is_set-Feeds event = search feed_rules depth 7

  resubscribe-Feeds : Steps (Feeds {E = E}) resubscribe
  unfolding resubscribe
  resubscribe-Feeds = search feed_rules depth 7

  back_off-Feeds : (m : RetryManager) (attempt : ℕ) → Steps (Feeds {E = E}) (back_off m attempt)
  unfolding back_off
  back_off-Feeds m attempt = search feed_rules depth 8

  after_error-Feeds :
      (m : RetryManager) (attempts : ℕ) (err : Error)
      → Steps (Feeds {E = E}) (after_error m attempts err)
  after_error-Feeds m attempts err = search (feed_rules, resubscribe-Feeds, back_off-Feeds) depth 8

  open_stream-Feeds :
      (m : RetryManager) (attempts : ℕ) → Steps (Feeds {E = E}) (open_stream m attempts)
  unfolding open_stream
  open_stream-Feeds m attempts = search (feed_rules, after_error-Feeds) depth 8

  reopen-Feeds : Steps (Feeds {E = E}) reopen
  unfolding reopen
  reopen-Feeds = search (feed_rules, resubscribe-Feeds) depth 8

  after_stream-Feeds : (shutdown : ℕ) → Steps (Feeds {E = E}) (after_stream shutdown)
  unfolding after_stream
  after_stream-Feeds shutdown = search (feed_rules, event_is_set-Feeds, reopen-Feeds) depth 8

  arrived-Feeds :
      (shutdown : ℕ) (stream : E.Stream) (message : Option StreamMessage)
      → Steps (Feeds {E = E}) (arrived shutdown stream message)
  unfolding arrived
  arrived-Feeds shutdown stream none = after_stream-Feeds shutdown
  arrived-Feeds shutdown stream (some message) =
      Steps-bind Feeds-preorder _ _ (event_is_set-Feeds λ s. shutdown) λ down.
        Steps-if down _ _ (Steps-pure Feeds-preorder ended) (
          Steps-bind Feeds-preorder _ _ (event_is_set-Feeds λ s. s.this.stop_event) λ stopped.
            Steps-if stopped _ _ (after_stream-Feeds shutdown) (put_message-Feeds message stream))

  next_message-Feeds : (stream : E.Stream) → Steps (Feeds {E = E}) (next_message stream)
  unfolding next_message
  next_message-Feeds stream = search feed_rules depth 8

  -- A step of a receive loop, whatever it meets, only adds messages to its queue, behind those that
  -- are there, and never more than the queue's capacity; its topic consumer keeps its topic,
  -- subscription, filters, retry settings and stop event, its next request number does not go back,
  -- and the shared client only grows.
  pub receive_step-Feeds :
      (m : RetryManager) (shutdown : ℕ) (phase : Phase E)
      → Steps (Feeds {E = E}) (receive_step m shutdown phase)
  unfolding receive_step
  receive_step-Feeds m shutdown (opening attempts) =
      search (feed_rules, event_is_set-Feeds, open_stream-Feeds) depth 8
  receive_step-Feeds m shutdown (reading stream) =
      search (feed_rules, next_message-Feeds, arrived-Feeds) depth 8
  receive_step-Feeds m shutdown (putting message stream) = put_message-Feeds message stream
  receive_step-Feeds m shutdown ended = search feed_rules
