-- ===== src/Exec/NoError.antt =====
-- Calls that do not raise.
use danube_py.Exec.{Exec, pure, catch}
use danube_py.Exec.Inversion.{catch_cases}
use danube_py.Prelude.{◌≡◌, subst}
use danube_py.Errors.{Error, Result, err}

abbrev pub NoError : {A : Type 0} → Result A → Type 0
NoError (err e) = ⊥
NoError _ = Unit

pub NoError-err : {A : Type 0} {r : Result A} {e : Error} → NoError r → r ≡ err e → ⊥
NoError-err n h = subst NoError h n

-- A call whose errors are caught and answered by a value.
pub caught-NoError :
    {S A : Type 0} (m : Exec S A) (a : A) (s : S) → NoError (catch m (λ _. pure a) s).0
unfolding pure
caught-NoError m a s =
    catch_cases (λ x. NoError x.0) m (λ _. pure a) s (λ a h. tt) (λ a h. tt) (λ h. tt)
