-- ===== src/Exec/Returns.antt =====
-- Calls that return from states with a property, and the property of the state that they return with.
use danube_py.Prelude.{◌≡◌, refl, sym, ap, subst}
use danube_py.Errors.{Error, Result, ok}
use danube_py.Exec.{Exec, gets, catch, ◌>>=◌}
use danube_py.Exec.Inversion.{bind_step, catch_ok}

abbrev pub Ends : {S A : Type 0} → (S → Type 0) → Result A × S → Type 0
Ends {A = A} Q x = (a : A) × (x.0 ≡ ok a) × Q x.1

-- From a state with `P` the call returns, and leaves a state with `Q`.
pub record Returns {S A : Type 0} (P Q : S → Type 0) (m : Exec S A) : Type 0 where
  pub at : (s : S) → P s → Ends Q (m s)

module _ {S A : Type 0} {P : S → Type 0} where
  pub Returns-gets : (f : S → A) → Returns P P (gets f)
  unfolding gets
  Returns-gets f = record { at = λ s p. (f s, refl, p) }

module _ {S A : Type 0} {P Q : S → Type 0} where
  pub Returns-catch :
      (m : Exec S A) (h : Error → Exec S A) → Returns P Q m → Returns P Q (catch m h)
  Returns-catch m h r = record {
    at = λ s p.
        let (a, e, q) = r.at s p in
        subst (Ends Q) (sym (catch_ok m h s (ap (λ x. (x, (m s).1)) e))) (a, refl, q);
  }

module _ {S A B : Type 0} {P Q R : S → Type 0} where
  pub Returns-bind :
      (m : Exec S A) (f : A → Exec S B)
      → Returns P Q m
      → ((a : A) → Returns Q R (f a))
      → Returns P R (m >>= f)
  Returns-bind m f r k = record {
    at = λ s p.
        let (a, e, q) = r.at s p in subst (Ends R) (sym (bind_step m f s e)) ((k a).at (m s).1 q);
  }
