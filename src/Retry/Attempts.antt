-- ===== src/Retry/Attempts.antt =====
-- The loop that TopicProducer.create and TopicConsumer.subscribe share: try, look up another broker, wait,
-- try again. Both fill the interface `Retrying`, and have the theorems of its children.
pub mod Tried
pub mod Enough
use danube_py.Prelude.{ℕ, zero, suc, ◌+◌, ltb, if◌then◌else◌, ◌≡◌}
use danube_py.Errors.{Error}
use danube_py.Exec.{Exec, raise, gets, catch, diverge, ◌>>=◌, ◌>>◌}
use danube_py.Exec.NoError.{NoError}
use danube_py.Retry.{RetryManager, is_retryable}
use danube_py.Retry.Backoff.{IsValid}

-- `count` is the next request number: an attempt uses one up, and the rest none. Nothing changes the
-- settings. Neither the lookup nor, with settings that a constructor made, the wait raises.
pub record Retrying (S : Type 0) : Type 0 where
  pub count : S → ℕ
  pub settings : S → RetryManager
  pub attempt : Exec S ℕ
  pub find : Exec S (Unit {0})
  pub wait : ℕ → Exec S (Unit {0})
  pub attempt_count : (s : S) → count (attempt s).1 ≡ count s + 1
  pub attempt_settings : (s : S) → settings (attempt s).1 ≡ settings s
  pub find_count : (s : S) → count (find s).1 ≡ count s
  pub find_settings : (s : S) → settings (find s).1 ≡ settings s
  pub find_returns : (s : S) → NoError (find s).0
  pub wait_count : (n : ℕ) (s : S) → count (wait n s).1 ≡ count s
  pub wait_settings : (n : ℕ) (s : S) → settings (wait n s).1 ≡ settings s
  pub wait_returns : (n : ℕ) (s : S) → IsValid (settings s) → NoError (wait n s).0

module _ {S : Type 0} where
  abbrev pub after_failure : Error → ℕ → ℕ → Exec S ℕ → Exec S ℕ
  after_failure err max_retries attempts again =
      if is_retryable err
      then (if ltb max_retries (attempts + 1) then raise err else again)
      else raise err

module _ {S : Type 0} (r : Retrying S) where
  open r use {settings, attempt, find, wait}

  -- What a round does, if `rest` are the rounds after it.
  abbrev pub round : ℕ → Exec S ℕ → Exec S ℕ
  round attempts rest = catch attempt λ err. (gets λ s. (settings s).max_retries) >>= λ max_retries.
      after_failure err max_retries attempts (find >> (wait attempts >> rest))

  unfoldable pub loop : ℕ → ℕ → Exec S ℕ
  unfolding diverge catch gets ◌>>=◌ raise
  loop zero attempts = diverge
  loop (suc fuel) attempts = round attempts (loop fuel (attempts + 1))

  unfoldable pub start : Exec S ℕ
  unfolding loop ◌>>=◌ gets
  start = find >> ((gets λ s. (settings s).max_retries) >>= λ max_retries. loop (suc max_retries) 0)
