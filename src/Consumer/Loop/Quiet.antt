-- ===== src/Consumer/Loop/Quiet.antt =====
-- The parts of a receive loop that put nothing into the queue.
use danube_py.Prelude.{
  ℕ, Bool, true, false, List, [], ◌∷◌, ◌++◌, ◌≡◌, refl, ◌∙◌, ap, subst, if◌then◌else◌,
}
use danube_py.Errors.{Error, Result, ok, err, pending}
use danube_py.Exec.{Exec, pure, catch, ◌>>=◌}
use danube_py.Exec.Inversion.{bind_cases, catch_cases}
use danube_py.Exec.Steps.{IsPreorder, Steps, steps_rules}
use danube_py.Env.{Env}
use danube_py.Env.Api.{StreamMessage}
use danube_py.Retry.{RetryManager}
use danube_py.TopicConsumer.{Subscriber}
use danube_py.Consumer.{Phase, opening, reading, putting, ended, Feed}
use danube_py.Consumer.Loop.{
  on_consumer, event_is_set, resubscribe, back_off, after_error, open_stream, reopen, after_stream,
  receive_step,
}

module _ {E : Env} where
  -- The message that the loop waits to put.
  abbrev pub in_hand : Phase E → List StreamMessage
  in_hand (putting message stream) = message ∷ []
  in_hand _ = []

  abbrev pub next_phase : Result (Phase E) → Phase E → Phase E
  next_phase (ok p) q = p
  next_phase (err e) q = ended
  next_phase pending q = q

  pub record Still (s t : Feed E) : Type 0 where
    pub queue : t.queue ≡ s.queue

  Still-preorder : IsPreorder Still
  Still-preorder = record {
    reflexive = λ s. record { queue = refl };
    transitive = λ s t u f g. record { queue = g.queue ∙ f.queue };
  }

  on_consumer-Still : {A : Type 0} (m : Exec (Subscriber E) A) → Steps Still (on_consumer m)
  unfolding on_consumer
  on_consumer-Still m = record { at = λ s. record { queue = refl } }

  abbrev pub IsIdle : Result (Phase E) → Type 0
  IsIdle (ok p) = in_hand p ≡ []
  IsIdle _ = Unit

  -- The queue stays, and the loop has no message in hand.
  pub record Quiet (m : Exec (Feed E) (Phase E)) : Type 0 where
    pub at : (s : Feed E) → ((m s).1.queue ≡ s.queue) × IsIdle (m s).0

  Quiet-opening : (attempts : ℕ) → Quiet (pure (opening attempts))
  unfolding pure
  Quiet-opening attempts = record { at = λ s. (refl, refl) }

  Quiet-reading : (stream : E.Stream) → Quiet (pure (reading stream))
  unfolding pure
  Quiet-reading stream = record { at = λ s. (refl, refl) }

  Quiet-ended : Quiet (pure ended)
  unfolding pure
  Quiet-ended = record { at = λ s. (refl, refl) }

  Quiet-if :
      (b : Bool) (m n : Exec (Feed E) (Phase E)) → Quiet m → Quiet n → Quiet (if b then m else n)
  Quiet-if true m n h k = h
  Quiet-if false m n h k = k

  Quiet-bind :
      {A : Type 0} (m : Exec (Feed E) A) (f : A → Exec (Feed E) (Phase E))
      → Steps Still m
      → ((a : A) → Quiet (f a))
      → Quiet (m >>= f)
  Quiet-bind m f h k = record {
    at = λ s.
        let same = (h.at s).queue in
        bind_cases (λ x. (x.1.queue ≡ s.queue) × IsIdle x.0) m f s
          (λ a e. (((k a).at (m s).1).0 ∙ same, ((k a).at (m s).1).1)) (λ x e. (same, tt))
          (λ e. (same, tt));
  }

  Quiet-catch :
      (m : Exec (Feed E) (Phase E)) (h : Error → Exec (Feed E) (Phase E))
      → Quiet m
      → ((e : Error) → Quiet (h e))
      → Quiet (catch m h)
  Quiet-catch m h q k = record {
    at = λ s.
        let same = (q.at s).0 in
        catch_cases (λ x. (x.1.queue ≡ s.queue) × IsIdle x.0) m h s
          (λ a e. (same, subst IsIdle e (q.at s).1))
          (λ x e. (((k x).at (m s).1).0 ∙ same, ((k x).at (m s).1).1)) (λ e. (same, tt));
  }

  idle_next :
      (r : Result (Phase E)) (phase : Phase E)
      → IsIdle r
      → in_hand phase ≡ []
      → in_hand (next_phase r phase) ≡ []
  idle_next (ok p) phase i h = i
  idle_next (err e) phase i h = refl
  idle_next pending phase i h = h

  -- What a quiet call leaves of the messages, from a phase without one in hand.
  pub Quiet-keeps :
      (m : Exec (Feed E) (Phase E)) (phase : Phase E) (s : Feed E)
      → Quiet m
      → in_hand phase ≡ []
      → (m s).1.queue ++ in_hand (next_phase (m s).0 phase) ≡ s.queue ++ []
  Quiet-keeps m phase s q h =
      ap (λ l. l ++ in_hand (next_phase (m s).0 phase)) (q.at s).0
      ∙ ap (λ l. s.queue ++ l) (idle_next (m s).0 phase (q.at s).1 h)

ruleset quiet_rules = (
  steps_rules, Still-preorder, on_consumer-Still, Quiet-opening, Quiet-reading, Quiet-ended,
  Quiet-if, Quiet-bind, Quiet-catch,
)

module _ {E : Env} where
  event-Still : (event : Feed E → ℕ) → Steps (Still {E = E}) (event_is_set event)
  unfolding event_is_set
  event-Still event = search (steps_rules, Still-preorder, on_consumer-Still)

  back_off-Still : (m : RetryManager) (attempt : ℕ) → Steps (Still {E = E}) (back_off m attempt)
  unfolding back_off
  back_off-Still m attempt = search (steps_rules, Still-preorder, on_consumer-Still)

  resubscribe-Quiet : Quiet (resubscribe {E = E})
  unfolding resubscribe
  resubscribe-Quiet = search quiet_rules

  after_error-Quiet :
      (m : RetryManager) (attempts : ℕ) (e : Error) → Quiet (after_error {E = E} m attempts e)
  after_error-Quiet m attempts e = search (quiet_rules, resubscribe-Quiet, back_off-Still) depth 7

  open_stream-Quiet : (m : RetryManager) (attempts : ℕ) → Quiet (open_stream {E = E} m attempts)
  unfolding open_stream
  open_stream-Quiet m attempts = search (quiet_rules, after_error-Quiet)

  reopen-Quiet : Quiet (reopen {E = E})
  unfolding reopen
  reopen-Quiet = search (quiet_rules, resubscribe-Quiet)

  pub after_stream-Quiet : (shutdown : ℕ) → Quiet (after_stream {E = E} shutdown)
  unfolding after_stream
  after_stream-Quiet shutdown = search (quiet_rules, event-Still, reopen-Quiet) depth 9

  pub opening-Quiet :
      (m : RetryManager) (shutdown attempts : ℕ)
      → Quiet (receive_step {E = E} m shutdown (opening attempts))
  unfolding receive_step
  opening-Quiet m shutdown attempts = search (quiet_rules, event-Still, open_stream-Quiet) depth 7
