-- ===== src/Consumer/Loop/Delivery.antt =====
-- From the stream of the broker to the user of the queue, which the receive loops of the other partitions
-- fill too.
use danube_py.Prelude.{
  ℕ, Bool, false, List, [], ◌∷◌, ◌++◌, length, ltb, ◌≡◌, refl, sym, ap, ◌∙◌, if◌then◌else◌,
  Bool-cases, inl, inr,
}
use mathlib.Core.List.{append-nil, append_assoc}
use danube_py.Env.{Env}
use danube_py.Env.Api.{StreamMessage}
use danube_py.Client.{Client}
use danube_py.Retry.{RetryManager}
use danube_py.TopicConsumer.{TopicConsumer}
use danube_py.Consumer.{receive_channel_buffer, Phase, Feed}
use danube_py.Consumer.Loop.{receive_step}
use danube_py.Consumer.Loop.Quiet.{in_hand, next_phase}
use danube_py.Consumer.Loop.Arriving.{kept, kept-append, given_in, step_keeps}

-- The messages with a property, such as those of one partition's topic.
abbrev pub only : (StreamMessage → Bool) → List StreamMessage → List StreamMessage
only own [] = []
only own (message ∷ rest) = if own message then message ∷ only own rest else only own rest

only-append :
    (own : StreamMessage → Bool) (xs ys : List StreamMessage)
    → only own (xs ++ ys) ≡ only own xs ++ only own ys
only-append own [] ys = refl
only-append own (x ∷ xs) ys = elim (Bool-cases (own x)) [
  | inl mine ↦ rw mine (ap (λ l. x ∷ l) (only-append own xs ys))
  | inr other ↦ rw other (only-append own xs ys)
]

module _ (E : Env) where
  -- A loop with its queue, and what its user has got from the queue.
  pub record Delivery : Type 0 where
    pub phase : Phase E
    pub feed : Feed E
    pub taken : List StreamMessage

  -- A step of the loop, `get` of the queue by the user, which waits while the queue is empty, `put` of a
  -- message by the loop of another partition, which waits while it is full, or whatever else changes the
  -- topic consumer and the client.
  pub data Event (own : StreamMessage → Bool) : Type 0 where
    steps takes : Event own
    puts : (message : StreamMessage) → own message ≡ false → Event own
    changes : TopicConsumer E → Client E → Event own

module _ {E : Env} where
  abbrev pub take : List StreamMessage → Delivery E → Delivery E
  take [] d = d
  take (message ∷ rest) d = record d {
    feed = record (d.feed) { queue = rest };
    taken = d.taken ++ (message ∷ []);
  }

  abbrev pub put : StreamMessage → Delivery E → Delivery E
  put message d =
      if ltb (length d.feed.queue) receive_channel_buffer
      then record d { feed = record (d.feed) { queue = d.feed.queue ++ (message ∷ []) } }
      else d

  abbrev pub happen :
      {own : StreamMessage → Bool} → RetryManager → ℕ → Event E own → Delivery E → Delivery E
  happen m shutdown steps d =
      let (r, s) = receive_step m shutdown d.phase d.feed in
      record d { phase = next_phase r d.phase; feed = s }
  happen m shutdown takes d = take d.feed.queue d
  happen m shutdown (puts message other) d = put message d
  happen m shutdown (changes tc c) d = record d { feed = record (d.feed) { this = tc; client = c } }

module _ {E : Env} {own : StreamMessage → Bool} where
  abbrev pub arrivals :
      RetryManager → ℕ → List (Event E own) → Delivery E → List (StreamMessage × Bool)
  arrivals m shutdown [] d = []
  arrivals m shutdown (steps ∷ events) d =
      given_in shutdown d.phase d.feed
      ++ arrivals m shutdown events (happen {own = own} m shutdown steps d)
  arrivals m shutdown (e ∷ events) d = arrivals m shutdown events (happen m shutdown e d)

  abbrev pub run : RetryManager → ℕ → List (Event E own) → Delivery E → Delivery E
  run m shutdown [] d = d
  run m shutdown (e ∷ events) d = run m shutdown events (happen m shutdown e d)

module _ {E : Env} where
  -- The messages that the user has got, those in the queue, and the one that waits for room.
  abbrev pub messages : Delivery E → List StreamMessage
  messages d = d.taken ++ (d.feed.queue ++ in_hand d.phase)

  take_keeps :
      (queue : List StreamMessage) (d : Delivery E)
      → d.feed.queue ≡ queue
      → messages (take queue d) ≡ messages d
  take_keeps [] d h = refl
  take_keeps (message ∷ rest) d h =
      append_assoc d.taken (message ∷ []) (rest ++ in_hand d.phase)
      ∙ ap (λ q. d.taken ++ (q ++ in_hand d.phase)) (sym h)

  step_messages :
      (m : RetryManager) (shutdown : ℕ) (d : Delivery E)
      → let (r, t) = receive_step m shutdown d.phase d.feed in
        d.taken ++ (t.queue ++ in_hand (next_phase r d.phase))
        ≡ messages d ++ kept (given_in shutdown d.phase d.feed)
  step_messages m shutdown d =
      let hand = in_hand d.phase in
      let given = kept (given_in shutdown d.phase d.feed) in
      ap (λ l. d.taken ++ l)
        (step_keeps m shutdown d.phase d.feed ∙ sym (append_assoc d.feed.queue hand given))
      ∙ sym (append_assoc d.taken (d.feed.queue ++ hand) given)

module _ (own : StreamMessage → Bool) where
  aside :
      (message : StreamMessage) (taken queue hand : List StreamMessage)
      → own message ≡ false
      → only own (taken ++ ((queue ++ (message ∷ [])) ++ hand))
        ≡ only own (taken ++ (queue ++ hand))
  aside message taken queue hand other =
      only-append own taken _
      ∙ ap (λ l. only own taken ++ l)
          (ap (only own) (append_assoc queue (message ∷ []) hand)
            ∙ only-append own queue (message ∷ hand)
            ∙ rw other refl
            ∙ sym (only-append own queue hand))
      ∙ sym (only-append own taken (queue ++ hand))

module _ {E : Env} (own : StreamMessage → Bool) where
  -- The messages of this partition.
  abbrev pub mine : Delivery E → List StreamMessage
  mine d = only own (messages d)

  put_aside :
      (message : StreamMessage) (d : Delivery E)
      → own message ≡ false
      → mine (put message d) ≡ mine d
  put_aside message d other = elim (Bool-cases (ltb (length d.feed.queue) receive_channel_buffer)) [
    | inl room ↦ rw room (aside own message d.taken d.feed.queue (in_hand d.phase) other)
    | inr no_room ↦ rw no_room refl
  ]

  -- What the user has got of one partition's messages, then what of them is in the queue, then the one
  -- that waits for room, are together what they were before, followed by the messages that the broker's
  -- streams for that partition gave since, each once and in order, except those that came while the
  -- consumer was shutting down or the broker had closed the topic: these are dropped. So it is for
  -- whatever steps the loop takes, over any number of streams and subscriptions, whenever its user gets
  -- messages and the loops of other partitions put theirs into the same queue, also while it is full,
  -- and whatever else happens to the topic consumer and the client.
  pub messages_in_order :
      (m : RetryManager) (shutdown : ℕ) (events : List (Event E own)) (d : Delivery E)
      → mine (run m shutdown events d) ≡ mine d ++ only own (kept (arrivals m shutdown events d))
  messages_in_order m shutdown [] d = sym (append-nil (mine d))
  messages_in_order m shutdown (steps ∷ events) d =
      let t = happen {own = own} m shutdown steps d in
      let now = given_in shutdown d.phase d.feed in
      let later = arrivals m shutdown events t in
      messages_in_order m shutdown events t
      ∙ ap (λ l. only own l ++ only own (kept later)) (step_messages m shutdown d)
      ∙ ap (λ l. l ++ only own (kept later)) (only-append own (messages d) (kept now))
      ∙ append_assoc (mine d) (only own (kept now)) (only own (kept later))
      ∙ ap (λ l. mine d ++ l)
          (sym (ap (only own) (kept-append now later) ∙ only-append own (kept now) (kept later)))
  messages_in_order m shutdown (takes ∷ events) d =
      let t = take d.feed.queue d in
      messages_in_order m shutdown events t
      ∙ ap (λ l. only own l ++ only own (kept (arrivals m shutdown events t)))
          (take_keeps d.feed.queue d refl)
  messages_in_order m shutdown (puts message other ∷ events) d =
      messages_in_order m shutdown events (put message d)
      ∙ ap (λ l. l ++ only own (kept (arrivals m shutdown events (put message d))))
          (put_aside message d other)
  messages_in_order m shutdown (changes tc c ∷ events) d =
      messages_in_order m shutdown events (happen {own = own} m shutdown (changes tc c) d)
