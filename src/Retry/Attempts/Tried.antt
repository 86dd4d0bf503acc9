-- ===== src/Retry/Attempts/Tried.antt =====
-- How many attempts the loop makes before it gives up.
use danube_py.Prelude.{
  ℕ, zero, suc, ◌+◌, ◌≤◌, ◌<◌, true, ◌≡◌, ap, ◌∙◌, arith, ltb, subst, sym, Bool-cases, inl, inr,
  ltb→ge, ltb→lt,
}
use danube_py.Errors.{Error, Result, ok, err, pending}
use danube_py.Exec.{Exec, ◌>>◌, gets, raise, diverge}
use danube_py.Exec.NoError.{NoError, NoError-err}
use danube_py.Exec.Inversion.{bind_cases, catch_cases}
use danube_py.Retry.{RetryManager, is_retryable}
use danube_py.Retry.Backoff.{IsValid}
use danube_py.Retry.Attempts.{Retrying, after_failure, loop, start}

same_error : {a b : Error} → ◌≡◌ {A = Result ℕ} (err a) (err b) → is_retryable a ≡ is_retryable b
same_error h = cc

module _ {S : Type 0} (k : Retrying S) where
  -- How a loop ended that had `attempts` failed attempts behind it, with `max_retries` allowed: how many
  -- request numbers it has used up, which is at most the number of attempts that were left, and exactly
  -- that number if it raised an error that may pass.
  pub record Tried (max_retries attempts : ℕ) (s : S) (x : Result ℕ × S) : Type 0 where
    pub used : ℕ
    pub count : k.count x.1 ≡ k.count s + used
    pub bound : attempts + used ≤ max_retries + 1
    pub exhausted :
        (e : Error) → x.0 ≡ err e → is_retryable e ≡ true → attempts + used ≡ max_retries + 1

  once-Tried :
      (max_retries attempts : ℕ) (s t : S) (r : Result ℕ)
      → attempts ≤ max_retries
      → k.count t ≡ k.count s + 1
      → ((e : Error) → r ≡ err e → is_retryable e ≡ true → attempts + 1 ≡ max_retries + 1)
      → Tried max_retries attempts s (r, t)
  once-Tried max_retries attempts s t r a n x = record {
    used = 1;
    count = n;
    bound = omega arith;
    exhausted = x;
  }

  -- A loop that ends otherwise than by an error has nothing to account for.
  unforced-Tried :
      (max_retries attempts : ℕ) (s t : S) (r : Result ℕ)
      → NoError r
      → attempts ≤ max_retries
      → k.count t ≡ k.count s + 1
      → Tried max_retries attempts s (r, t)
  unforced-Tried max_retries attempts s t r q a n =
      once-Tried max_retries attempts s t r a n λ e h _. absurd (NoError-err q h)

  after_one-Tried :
      (max_retries attempts : ℕ) (s t : S) (x : Result ℕ × S)
      → k.count t ≡ k.count s + 1
      → Tried max_retries (attempts + 1) t x
      → Tried max_retries attempts s x
  after_one-Tried max_retries attempts s t x n r = record {
    used = suc r.used;
    count = omega (arith, r.count, n);
    bound = omega (arith, r.bound);
    exhausted = λ e h q. omega (arith, r.exhausted e h q);
  }

  after_failure-Tried :
      (max_retries attempts : ℕ) (s t : S) (e : Error) (again : Exec S ℕ)
      → attempts ≤ max_retries
      → k.count t ≡ k.count s + 1
      → (attempts < max_retries → Tried max_retries attempts s (again t))
      → Tried max_retries attempts s (after_failure e max_retries attempts again t)
  unfolding raise
  after_failure-Tried max_retries attempts s t e again a n h = elim (Bool-cases (is_retryable e)) [
    | inl passing ↦ elim (Bool-cases (ltb max_retries (attempts + 1))) [
      | inl over ↦
          rw (passing, over)
            (once-Tried max_retries attempts s t (err e) a n
              λ _ _ _. omega (arith, ltb→lt _ _ over))
      | inr under ↦ rw (passing, under) (h (omega (arith, ltb→ge _ _ under)))
    ]
    | inr fatal ↦
        rw fatal
          (once-Tried max_retries attempts s t (err e) a n λ x q r. ground (arith, same_error q))
  ]

  -- The part of a round behind an attempt that failed for a while.
  again-Tried :
      (attempts : ℕ) (rest : Exec S ℕ) (m : RetryManager) (s t : S)
      → IsValid m
      → k.settings t ≡ m
      → attempts < m.max_retries
      → k.count t ≡ k.count s + 1
      → ((u : S) → k.settings u ≡ m → Tried m.max_retries (attempts + 1) u (rest u))
      → Tried m.max_retries attempts s ((k.find >> (k.wait attempts >> rest)) t)
  again-Tried attempts rest m s t v kept more n next =
      let u = (k.find t).1 in
      let w = (k.wait attempts u).1 in
      let n_u = k.find_count t ∙ n in
      let kept_u = k.find_settings t ∙ kept in
      let v_u = subst IsValid (sym kept_u) v in
      let n_w = k.wait_count attempts u ∙ n_u in
      bind_cases (Tried m.max_retries attempts s) k.find _ t
        (λ _ _.
          bind_cases (Tried m.max_retries attempts s) (k.wait attempts) _ u
            (λ _ _.
              after_one-Tried m.max_retries attempts s w _ n_w
                (next w (k.wait_settings attempts u ∙ kept_u)))
            (λ e h. absurd (NoError-err (k.wait_returns attempts u v_u) h))
            (λ h. unforced-Tried m.max_retries attempts s w pending tt (omega arith) n_w))
        (λ e h. absurd (NoError-err (k.find_returns t) h))
        (λ h. unforced-Tried m.max_retries attempts s u pending tt (omega arith) n_u)

  loop-Tried :
      (fuel attempts : ℕ) (m : RetryManager) (s : S)
      → IsValid m
      → k.settings s ≡ m
      → attempts ≤ m.max_retries
      → Tried m.max_retries attempts s (loop k fuel attempts s)
  unfolding loop diverge gets
  loop-Tried zero attempts m s v e a = record {
    used = 0;
    count = omega arith;
    bound = omega arith;
    exhausted = λ x h q. absurd (NoError-err {r = pending} tt h);
  }
  loop-Tried (suc fuel) attempts m s v kept a =
      let t = (k.attempt s).1 in
      let n = k.attempt_count s in
      let kept_t = k.attempt_settings s ∙ kept in
      let again = k.find >> (k.wait attempts >> loop k fuel (attempts + 1)) in
      catch_cases (Tried m.max_retries attempts s) k.attempt _ s
        (λ b h. unforced-Tried m.max_retries attempts s t (ok b) tt a n)
        (λ e h.
          subst (λ q. Tried m.max_retries attempts s (after_failure e q attempts again t))
            (ap (λ r. r.max_retries) (sym kept_t))
            (after_failure-Tried m.max_retries attempts s t e again a n λ more.
              again-Tried attempts (loop k fuel (attempts + 1)) m s t v kept_t more n
                (λ u f. loop-Tried fuel (attempts + 1) m u v f (omega arith))))
        (λ h. unforced-Tried m.max_retries attempts s t pending tt a n)

  same_start :
      (m : RetryManager) (s t : S) {x : Result ℕ × S}
      → k.count t ≡ k.count s
      → Tried m.max_retries 0 t x
      → Tried m.max_retries 0 s x
  same_start m s t n r = record {
    used = r.used;
    count = omega (arith, r.count, n);
    bound = r.bound;
    exhausted = r.exhausted;
  }

  pub start-Tried :
      (s : S) → IsValid (k.settings s) → Tried (k.settings s).max_retries 0 s (start k s)
  unfolding start gets
  start-Tried s v =
      let m = k.settings s in
      let t = (k.find s).1 in
      let n = k.find_count s in
      bind_cases (Tried m.max_retries 0 s) k.find _ s
        (λ _ _.
          same_start m s t n
            (loop-Tried (suc (k.settings t).max_retries) 0 m t v (k.find_settings s) (omega arith)))
        (λ e h. absurd (NoError-err (k.find_returns s) h))
        (λ h. record {
          used = 0;
          count = omega (arith, n);
          bound = omega arith;
          exhausted = λ x q _. absurd (NoError-err {r = pending} tt q);
        })
