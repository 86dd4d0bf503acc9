-- ===== src/Retry/Backoff.antt =====
-- `RetryManager.calculate_backoff` never raises, and its waits stay between fixed bounds.
use danube_py.Prelude.{ℕ, ◌+◌, ◌*◌, ◌/◌, ◌≤◌, ◌<◌, ◌≡◌, max, ℤ, arith, le→ltb, ap}
use danube_py.Errors.{ok}
use danube_py.Env.{Env, RandintInRange}
use danube_py.Retry.{RetryManager, new, linear_backoff, draw, calculate_backoff}

-- What the constructor ensures of every manager, also for arguments of 0 and below.
pub record IsValid (m : RetryManager) : Type 0 where
  pub retries : 0 < m.max_retries
  pub base : 0 < m.base_backoff_ms
  pub cap_ms : 0 < m.max_backoff_ms

pub new-IsValid : (r b c : ℤ) → IsValid (new r b c)
unfolding new
new-IsValid r b c = ground arith

linear_pos : (m : RetryManager) (attempt : ℕ) → IsValid m → 0 < linear_backoff m attempt
unfolding linear_backoff
linear_pos m attempt v = grind arith

linear-le : (m : RetryManager) (attempt : ℕ) → linear_backoff m attempt ≤ m.max_backoff_ms
unfolding linear_backoff
linear-le m attempt = ground arith

linear-le-mul :
    (m : RetryManager) (attempt : ℕ) → linear_backoff m attempt ≤ m.base_backoff_ms * (attempt + 1)
unfolding linear_backoff
linear-le-mul m attempt = ground arith

draw_lem :
    (E : Env) (low high : ℕ) (w : E.World)
    → low ≤ high
    → draw E low high w ≡ (ok (E.randint low high w).0, (E.randint low high w).1)
unfolding draw
draw_lem E low high w h = rw (le→ltb high low h)

half-le : (n : ℕ) → 0 < n → max (n / 2) 1 ≤ n
half-le n h = omega arith

-- With such settings a wait is computed; the range that is drawn from is not empty.
pub calculate_backoff_ok :
    (E : Env) (m : RetryManager) (attempt : ℕ) (w : E.World)
    → IsValid m
    → (ms : ℕ) × ((calculate_backoff E m attempt w).0 ≡ ok ms)
unfolding calculate_backoff
calculate_backoff_ok E m attempt w v =
    let high = linear_backoff m attempt in
    let low = max (high / 2) 1 in
    (
      (E.randint low high w).0,
      ap (λ x. x.0) (draw_lem E low high w (half-le high (linear_pos m attempt v))),
    )

-- If `randint` gives a number in its range, then with the constructor's settings, whatever they are,
-- and for every attempt, `calculate_backoff` returns a wait: at least a millisecond and half of the
-- capped linear wait (rounded down), and at most the cap and at most the linear wait.
pub calculate_backoff_bounds :
    (E : Env)
    → RandintInRange E
    → (r b c : ℤ) (attempt : ℕ) (w : E.World)
    → let m = new r b c in
      (ms : ℕ) × ((calculate_backoff E m attempt w).0 ≡ ok ms)
      × (1 ≤ ms)
      × (linear_backoff m attempt / 2 ≤ ms)
      × (ms ≤ m.max_backoff_ms)
      × (ms ≤ m.base_backoff_ms * (attempt + 1))
unfolding calculate_backoff
calculate_backoff_bounds E law r b c attempt w =
    let m = new r b c in
    let high = linear_backoff m attempt in
    let low = max (high / 2) 1 in
    let fits = half-le high (linear_pos m attempt (new-IsValid r b c)) in
    let (above, below) = law.within low high w fits in
    (
      (E.randint low high w).0,
      ap (λ x. x.0) (draw_lem E low high w fits),
      omega arith,
      omega arith,
      omega (arith, linear-le m attempt),
      omega (arith, linear-le-mul m attempt),
    )
