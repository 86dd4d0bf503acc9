-- ===== src/Consumer/Loop/Arriving.antt =====
-- What a step of a receive loop makes of a message that the broker's stream gives.
use danube_py.Prelude.{
  ℕ, Bool, true, false, Option, none, some, List, [], ◌∷◌, ◌++◌, length, get_or, ltb, ◌≡◌, refl,
  sym, ap, ◌∙◌, subst, if◌then◌else◌, Bool-cases, inl, inr,
}
use mathlib.Core.List.{append-nil}
use danube_py.Errors.{Result, ok, err, pending}
use danube_py.Exec.{pure, catch, handle, proceed, ◌>>=◌}
use danube_py.Env.{Env}
use danube_py.Env.Api.{StreamMessage}
use danube_py.Client.{outside}
use danube_py.Retry.{RetryManager}
use danube_py.TopicConsumer
use danube_py.TopicConsumer.{TopicConsumer}
use danube_py.Consumer.{receive_channel_buffer, Phase, opening, reading, putting, ended, Feed}
use danube_py.Consumer.Loop.{
  on_consumer, event_is_set, after_stream, put_message, arrived, next_message, receive_step,
}
use danube_py.Consumer.Loop.Broken.{in_world}
use danube_py.Consumer.Loop.Quiet.{
  in_hand, next_phase, Quiet-keeps, after_stream-Quiet, opening-Quiet,
}

abbrev caught : Result (Option StreamMessage) → Result (Option StreamMessage)
caught (err e) = ok none
caught r = r

-- The messages whose mark is off.
abbrev pub kept : List (StreamMessage × Bool) → List StreamMessage
kept [] = []
kept ((message, true) ∷ rest) = kept rest
kept ((message, false) ∷ rest) = message ∷ kept rest

pub kept-append : (xs ys : List (StreamMessage × Bool)) → kept (xs ++ ys) ≡ kept xs ++ kept ys
kept-append [] ys = refl
kept-append ((message, true) ∷ xs) ys = kept-append xs ys
kept-append ((message, false) ∷ xs) ys = ap (λ l. message ∷ l) (kept-append xs ys)

module _ {E : Env} where
  -- What the broker's stream gives in a step, marked if the consumer is shutting down or the broker has
  -- closed the topic when it comes.
  abbrev pub is_leaving : ℕ → Feed E → Bool
  is_leaving shutdown s =
      if get_or s.client.events shutdown false
      then true
      else get_or s.client.events s.this.stop_event false

  abbrev pub given : ℕ → Result (Option StreamMessage) → Feed E → List (StreamMessage × Bool)
  given shutdown (ok (some message)) s = (message, is_leaving shutdown s) ∷ []
  given shutdown _ s = []

  abbrev pub given_in : ℕ → Phase E → Feed E → List (StreamMessage × Bool)
  given_in shutdown (reading stream) s = given shutdown (E.next_message stream s.client.world).0 s
  given_in shutdown _ s = []

  put_keeps :
      (message : StreamMessage) (stream : E.Stream) (phase : Phase E) (s : Feed E)
      → let (r, t) = put_message message stream s in
        t.queue ++ in_hand (next_phase r phase) ≡ s.queue ++ (message ∷ [])
  unfolding put_message pure
  put_keeps message stream phase s =
      elim (Bool-cases (ltb (length s.queue) receive_channel_buffer)) [
        | inl room ↦ rw room (append-nil (s.queue ++ (message ∷ [])))
        | inr no_room ↦ rw no_room refl
      ]

  handled :
      (r : Result (Option StreamMessage)) (s : Feed E) → handle r (λ e. pure none) s ≡ (caught r, s)
  unfolding pure
  handled (ok o) s = refl
  handled (err e) s = refl
  handled pending s = refl

  next_message_at :
      (stream : E.Stream) (s : Feed E)
      → let (r, w) = E.next_message stream s.client.world in
        next_message stream s ≡ (caught r, in_world s w)
  unfolding next_message catch on_consumer TopicConsumer.on_client outside
  next_message_at stream s =
      let (r, w) = E.next_message stream s.client.world in handled r (in_world s w)

  answered_keeps :
      (shutdown : ℕ) (stream : E.Stream) (r : Result (Option StreamMessage)) (s : Feed E)
      → let (q, t) = proceed (caught r) (arrived shutdown stream) s in
        t.queue ++ in_hand (next_phase q (reading stream)) ≡ s.queue ++ kept (given shutdown r s)
  unfolding arrived event_is_set
  answered_keeps shutdown stream (ok (some message)) s =
      elim (Bool-cases (get_or s.client.events shutdown false)) [
        | inl down ↦ rw down refl
        | inr up ↦ elim (Bool-cases (get_or s.client.events s.this.stop_event false)) [
          | inl stopped ↦
              rw (up, stopped)
                (Quiet-keeps (after_stream shutdown) (reading stream) s
                  (after_stream-Quiet shutdown) refl)
          | inr calm ↦ rw (up, calm) (put_keeps message stream (reading stream) s)
        ]
      ]
  answered_keeps shutdown stream (ok none) s =
      Quiet-keeps (after_stream shutdown) (reading stream) s (after_stream-Quiet shutdown) refl
  answered_keeps shutdown stream (err e) s =
      Quiet-keeps (after_stream shutdown) (reading stream) s (after_stream-Quiet shutdown) refl
  answered_keeps shutdown stream pending s = refl

  given-in_world :
      (shutdown : ℕ) (r : Result (Option StreamMessage)) (s : Feed E) (w : E.World)
      → given shutdown r (in_world s w) ≡ given shutdown r s
  given-in_world shutdown (ok (some message)) s w = refl
  given-in_world shutdown (ok none) s w = refl
  given-in_world shutdown (err e) s w = refl
  given-in_world shutdown pending s w = refl

  pub step_keeps :
      (m : RetryManager) (shutdown : ℕ) (phase : Phase E) (s : Feed E)
      → let (r, t) = receive_step m shutdown phase s in
        t.queue ++ in_hand (next_phase r phase)
        ≡ s.queue ++ (in_hand phase ++ kept (given_in shutdown phase s))
  unfolding receive_step ◌>>=◌ pure
  step_keeps m shutdown (opening attempts) s =
      Quiet-keeps (receive_step m shutdown (opening attempts)) (opening attempts) s
        (opening-Quiet m shutdown attempts) refl
  step_keeps m shutdown (reading stream) s =
      let (r, w) = E.next_message stream s.client.world in
      subst
        (λ x.
          let (q, t) = proceed x.0 (arrived shutdown stream) x.1 in
          t.queue ++ in_hand (next_phase q (reading stream)) ≡ s.queue ++ kept (given shutdown r s))
        (sym (next_message_at stream s))
        (answered_keeps shutdown stream r (in_world s w)
          ∙ ap (λ l. s.queue ++ kept l) (given-in_world shutdown r s w))
  step_keeps m shutdown (putting message stream) s =
      put_keeps message stream (putting message stream) s
  step_keeps m shutdown ended s = refl
