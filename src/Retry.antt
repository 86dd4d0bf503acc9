-- ===== src/Retry.antt =====
-- danube/retry_manager.py: which errors are tried again, how long to wait, and the proxy header.
-- There are no floats: a wait is kept in milliseconds, which Python divides by 1000.0 at the end.
pub mod Backoff
pub mod Proxy
pub mod Attempts
use danube_py.Prelude.{
  ℕ, zero, suc, ◌+◌, ◌*◌, ◌/◌, max, String, ℤ, pos, Bool, true, false, Option, none, some, List, [],
  ◌∷◌, ◌++◌, ltb, if◌then◌else◌,
}
use danube_py.Errors.{
  StatusCode, unavailable, deadline_exceeded, resource_exhausted, Error, rpc, value_error,
}
use danube_py.Exec.{Exec, pure, raise, state}
use danube_py.Env.{Env, Metadata}

abbrev pub default_max_retries : ℕ
default_max_retries = 5

abbrev pub default_base_backoff_ms : ℕ
default_base_backoff_ms = 200

abbrev pub default_max_backoff_ms : ℕ
default_max_backoff_ms = 5000

pub record RetryManager : Type 0 where
  pub max_retries : ℕ
  pub base_backoff_ms : ℕ
  pub max_backoff_ms : ℕ

-- `n if n > 0 else default`
abbrev pub positive_or : ℤ → ℕ → ℕ
positive_or (pos (suc n)) _ = suc n
positive_or _ default = default

unfoldable pub new : ℤ → ℤ → ℤ → RetryManager
new max_retries base_backoff_ms max_backoff_ms = record {
  max_retries = positive_or max_retries default_max_retries;
  base_backoff_ms = positive_or base_backoff_ms default_base_backoff_ms;
  max_backoff_ms = positive_or max_backoff_ms default_max_backoff_ms;
}

abbrev retryable_code : StatusCode → Bool
retryable_code unavailable = true
retryable_code deadline_exceeded = true
retryable_code resource_exhausted = true
retryable_code _ = false

unfoldable pub is_retryable : Error → Bool
is_retryable (rpc code _) = retryable_code code
is_retryable _ = false

unfoldable pub insert_proxy_header : Metadata → String → Bool → Metadata
insert_proxy_header metadata broker_url false = metadata
insert_proxy_header none broker_url true = some (("x-danube-broker-url", broker_url) ∷ [])
insert_proxy_header (some metadata) broker_url true =
    some (metadata ++ (("x-danube-broker-url", broker_url) ∷ []))

-- The wait before the jitter: linear in the attempts, up to the cap.
unfoldable pub linear_backoff : RetryManager → ℕ → ℕ
linear_backoff m attempt =
    let linear = m.base_backoff_ms * (attempt + 1) in
    if ltb m.max_backoff_ms linear then m.max_backoff_ms else linear

module _ (E : Env) where
  -- `random.randint` raises if its range is empty.
  unfoldable pub draw : ℕ → ℕ → Exec E.World ℕ
  unfolding raise state
  draw low high =
      if ltb high low
      then raise (value_error "empty range in randrange")
      else state (E.randint low high)

  unfoldable pub calculate_backoff : RetryManager → ℕ → Exec E.World ℕ
  unfolding linear_backoff draw
  calculate_backoff m attempt =
      let linear = linear_backoff m attempt in draw (max (linear / 2) 1) linear
