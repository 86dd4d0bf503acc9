-- ===== src/Exec/Ensures.antt =====
-- What holds in the state with which a call returns, where some states are kept whatever comes of it.
use danube_py.Prelude.{Bool, true, false, ◌≡◌, if◌then◌else◌}
use danube_py.Errors.{Error, Result, ok, err, pending}
use danube_py.Exec.{Exec, raise, diverge, catch, ◌>>=◌}
use danube_py.Exec.Inversion.{bind_cases, catch_cases}

-- The end of a call is a state with `P`, and one with `Q` if the call has returned.
abbrev pub EndsWell : {S A : Type 0} → (S → Type 0) → (S → Type 0) → Result A × S → Type 0
EndsWell P Q (ok a, t) = P t × Q t
EndsWell P Q (_, t) = P t

pub record Ensures {S A : Type 0} (P Q : S → Type 0) (m : Exec S A) : Type 0 where
  pub at : (s : S) → P s → EndsWell P Q (m s)

module _ {S : Type 0} (P Q : S → Type 0) where
  ends_well-P : {A : Type 0} (r : Result A) (t : S) → EndsWell P Q (r, t) → P t
  ends_well-P (ok a) t h = h.0
  ends_well-P (err e) t h = h
  ends_well-P pending t h = h

  ends_well-Q : {A : Type 0} (r : Result A) (t : S) {a : A} → r ≡ ok a → EndsWell P Q (r, t) → Q t
  ends_well-Q (ok a) t h k = k.1
  ends_well-Q (err e) t h k = cc
  ends_well-Q pending t h k = cc

  pub ends_well : {A : Type 0} (r : Result A) (t : S) → P t → Q t → EndsWell P Q (r, t)
  ends_well (ok a) t p q = (p, q)
  ends_well (err e) t p q = p
  ends_well pending t p q = p

module _ {S : Type 0} {P Q : S → Type 0} where
  pub ensured :
      {A : Type 0} (m : Exec S A) (s : S) {a : A} → Ensures P Q m → P s → (m s).0 ≡ ok a → Q (m s).1
  ensured m s h p e = ends_well-Q P Q (m s).0 (m s).1 e (h.at s p)

  pub Ensures-raise : {A : Type 0} (e : Error) → Ensures {A = A} P Q (raise e)
  unfolding raise
  Ensures-raise e = record { at = λ s p. p }

  pub Ensures-diverge : {A : Type 0} → Ensures {A = A} P Q diverge
  unfolding diverge
  Ensures-diverge = record { at = λ s p. p }

  pub Ensures-if :
      {A : Type 0} (b : Bool) (m n : Exec S A)
      → Ensures P Q m
      → Ensures P Q n
      → Ensures P Q (if b then m else n)
  Ensures-if true m n h k = h
  Ensures-if false m n h k = k

  -- The last part of a composed call does it.
  pub Ensures-last :
      {A B : Type 0} (m : Exec S A) (f : A → Exec S B)
      → ((s : S) → P s → P (m s).1)
      → ((a : A) → Ensures P Q (f a))
      → Ensures P Q (m >>= f)
  Ensures-last m f h k = record {
    at = λ s p.
        bind_cases (EndsWell P Q) m f s (λ a e. (k a).at (m s).1 (h s p)) (λ x e. h s p)
          (λ e. h s p);
  }

  -- The first part does it, and the others keep it.
  pub Ensures-first :
      {A B : Type 0} (m : Exec S A) (f : A → Exec S B)
      → Ensures P Q m
      → ((a : A) (s : S) → P s → P (f a s).1)
      → ((a : A) (s : S) → P s → Q s → Q (f a s).1)
      → Ensures P Q (m >>= f)
  Ensures-first m f h k l = record {
    at = λ s p.
        let kept = ends_well-P P Q (m s).0 (m s).1 (h.at s p) in
        bind_cases (EndsWell P Q) m f s
          (λ a e.
            ends_well P Q (f a (m s).1).0 (f a (m s).1).1 (k a (m s).1 kept)
              (l a (m s).1 kept (ends_well-Q P Q (m s).0 (m s).1 e (h.at s p))))
          (λ x e. kept) (λ e. kept);
  }

  pub Ensures-catch :
      {A : Type 0} (m : Exec S A) (h : Error → Exec S A)
      → Ensures P Q m
      → ((e : Error) → Ensures P Q (h e))
      → Ensures P Q (catch m h)
  Ensures-catch m h j k = record {
    at = λ s p.
        let at = j.at s p in
        let kept = ends_well-P P Q (m s).0 (m s).1 at in
        catch_cases (EndsWell P Q) m h s (λ a e. (kept, ends_well-Q P Q (m s).0 (m s).1 e at))
          (λ x e. (k x).at (m s).1 kept) (λ e. kept);
  }
