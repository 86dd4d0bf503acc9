-- ===== src/TopicProducer/Create/Rounds/Attempts.antt =====
-- How many requests `create` sends before it gives up, and that its rounds are enough.
use danube_py.Prelude.{ℕ, ◌<◌, ◌≡◌, sym, ap, subst, ◌∙◌}
use danube_py.Exec.{◌>>◌}
use danube_py.Env.{Env}
use danube_py.Retry.Backoff.{IsValid}
use danube_py.Retry.Attempts.Tried.{Tried, start-Tried}
use danube_py.Retry.Attempts.Enough.{start_rounds}
use danube_py.TopicProducer.{Session, lookup_new_broker}
use danube_py.TopicProducer.Create.{create_loop, create}
use danube_py.TopicProducer.Create.Rounds.{creating, create_loop-loop, create-start}

module _ {E : Env} where
  -- If the retry settings are positive, as those of a constructed retry manager are, then `create` uses
  -- up at most one request number more than `max_retries`, where each attempt uses one; and if it
  -- raises an error that may pass, then it has used exactly that many.
  pub create_attempts :
      (s : Session E)
      → IsValid s.this.retry_manager
      → Tried creating s.this.retry_manager.max_retries 0 s (create s)
  create_attempts s v =
      subst (Tried creating s.this.retry_manager.max_retries 0 s) (sym (create-start s))
        (start-Tried creating s v)

  -- The rounds that `create` gives its loop are enough: with more of them the result and the state
  -- are the same.
  pub create_rounds :
      (g : ℕ) (s : Session E)
      → s.this.retry_manager.max_retries < g
      → create s ≡ (lookup_new_broker >> create_loop g 0) s
  create_rounds g s h =
      create-start s
      ∙ start_rounds creating g s h
      ∙ sym (ap (λ m. (lookup_new_broker >> m) s) (create_loop-loop g 0))
