-- ===== src/Exec.antt =====
-- Calls that change a state and may raise. What was written before a raise stays written, so the
-- state comes back beside an error too. An `await` of a call is the call.
pub mod Steps
pub mod Inversion
pub mod NoError
pub mod Returns
pub mod Ensures
use danube_py.Prelude.{Option, none, some}
use danube_py.Errors.{Error, Result, ok, err, pending}

abbrev pub Exec : Type 0 → Type 0 → Type 0
Exec S A = S → Result A × S

module _ {S A : Type 0} where
  unfoldable pub pure : A → Exec S A
  pure a s = (ok a, s)

  unfoldable pub raise : Error → Exec S A
  raise e s = (err e, s)

  unfoldable pub diverge : Exec S A
  diverge s = (pending, s)

  unfoldable pub gets : (S → A) → Exec S A
  gets f s = (ok (f s), s)

  -- `a if a is not None else raise e`
  abbrev pub or_raise : Option A → Error → Exec S A
  or_raise none e = raise e
  or_raise (some a) e = pure a

  abbrev pub handle : Result A → (Error → Exec S A) → Exec S A
  handle (ok a) h s = (ok a, s)
  handle (err e) h s = h e s
  handle pending h s = (pending, s)

  -- `try: m` with `except Exception as e: h e`
  unfoldable pub catch : Exec S A → (Error → Exec S A) → Exec S A
  catch m h s = let (r, s') = m s in handle r h s'

module _ {S : Type 0} where
  unfoldable pub modify : (S → S) → Exec S (Unit {0})
  modify f s = (ok tt, f s)

  -- A counter, such as `itertools.count`, in a field of the state.
  unfoldable pub state : {A : Type 0} → (S → A × S) → Exec S A
  state f s = (ok (f s).0, (f s).1)

module _ {S A B : Type 0} where
  abbrev pub proceed : Result A → (A → Exec S B) → Exec S B
  proceed (ok a) f s = f a s
  proceed (err e) f s = (err e, s)
  proceed pending f s = (pending, s)

  infixl 10 ◌>>=◌ ◌>>◌
  unfoldable pub ◌>>=◌ : Exec S A → (A → Exec S B) → Exec S B
  ◌>>=◌ m f s = let (r, s') = m s in proceed r f s'

  abbrev pub ◌>>◌ : Exec S A → Exec S B → Exec S B
  m >> k = m >>= λ _. k

-- A call on a part of the state: an attribute, or an object that the state refers to.
module _ {S T A : Type 0} where
  unfoldable pub zoom : (S → T) → (T → S → S) → Exec T A → Exec S A
  zoom get put m s = let (r, t) = m (get s) in (r, put t s)
