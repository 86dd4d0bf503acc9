-- ===== src/Retry/Attempts/Enough.antt =====
-- The rounds that the loop gets are enough.
use danube_py.Prelude.{
  ℕ, zero, suc, ◌+◌, ◌≤◌, ◌<◌, false, ◌≡◌, refl, ap, ◌∙◌, arith, ltb, Bool-cases, inl, inr, ltb→ge,
}
use danube_py.Errors.{Error}
use danube_py.Exec.{Exec, gets, ◌>>◌}
use danube_py.Exec.Inversion.{bind_congr, catch_congr}
use danube_py.Retry.{is_retryable}
use danube_py.Retry.Attempts.{Retrying, after_failure, loop, start}

module _ {S : Type 0} where
  after_failure_congr :
      (e : Error) (max attempts : ℕ) (m n : Exec S ℕ) (s : S)
      → (ltb max (attempts + 1) ≡ false → m s ≡ n s)
      → after_failure e max attempts m s ≡ after_failure e max attempts n s
  after_failure_congr e max attempts m n s h = elim (Bool-cases (is_retryable e)) [
    | inl again ↦ elim (Bool-cases (ltb max (attempts + 1))) [
      | inl over ↦ rw (again, over) refl
      | inr under ↦ rw (again, under) (h under)
    ]
    | inr fatal ↦ rw fatal refl
  ]

module _ {S : Type 0} (k : Retrying S) where
  loop_rounds :
      (f g attempts : ℕ) (s : S)
      → f ≤ g
      → attempts ≤ (k.settings s).max_retries
      → (k.settings s).max_retries < attempts + f
      → loop k f attempts s ≡ loop k g attempts s
  unfolding loop gets
  loop_rounds zero g attempts s h a b = absurd (omega arith)
  loop_rounds (suc f) zero attempts s h a b = absurd (omega arith)
  loop_rounds (suc f) (suc g) attempts s h a b = catch_congr k.attempt _ _ s λ e failed.
      let t = (k.attempt s).1 in
      let kept = k.attempt_settings s in
      after_failure_congr e (k.settings t).max_retries attempts _ _ t λ under.
        bind_congr k.find _ _ t λ _ _.
          let u = (k.find t).1 in
          bind_congr (k.wait attempts) _ _ u λ _ _.
            let v = (k.wait attempts u).1 in
            let m =
              ap (λ r. r.max_retries) (k.wait_settings attempts u ∙ k.find_settings t ∙ kept) in
            let m_t = ap (λ r. r.max_retries) kept in
            loop_rounds f g (attempts + 1) v (omega arith) (omega (arith, ltb→ge _ _ under, m, m_t))
              (omega (arith, m))

  pub start_rounds :
      (g : ℕ) (s : S) → (k.settings s).max_retries < g → start k s ≡ (k.find >> loop k g 0) s
  unfolding start gets
  start_rounds g s h = bind_congr k.find _ _ s λ _ _.
      let t = (k.find s).1 in
      let m = ap (λ r. r.max_retries) (k.find_settings s) in
      loop_rounds (suc (k.settings t).max_retries) g 0 t (omega (arith, m)) (omega arith)
        (omega arith)
