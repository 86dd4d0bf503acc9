-- ===== src/Exec/Inversion.antt =====
-- From the end of a composed call to the ends of its parts, and back.
use danube_py.Prelude.{◌≡◌, refl, ap}
use danube_py.Errors.{Error, Result, ok, err, pending}
use danube_py.Exec.{Exec, ◌>>=◌, catch, handle, proceed}

module _ {S A B : Type 0} where
  pub bind_at :
      (m : Exec S A) (f : A → Exec S B) (s : S) {a : A} {t : S}
      → m s ≡ (ok a, t)
      → (m >>= f) s ≡ f a t
  unfolding ◌>>=◌
  bind_at m f s h = rw (h, proceed) refl

  pub bind_step :
      (m : Exec S A) (f : A → Exec S B) (s : S) {a : A} → (m s).0 ≡ ok a → (m >>= f) s ≡ f a (m s).1
  unfolding ◌>>=◌
  bind_step m f s h = ap (λ r. proceed r f (m s).1) h

  proceed_congr :
      (r : Result A) (f g : A → Exec S B) (t : S)
      → ((a : A) → r ≡ ok a → f a t ≡ g a t)
      → proceed r f t ≡ proceed r g t
  proceed_congr (ok a) f g t h = h a refl
  proceed_congr (err e) f g t h = refl
  proceed_congr pending f g t h = refl

  -- Two continuations are compared only where the first call returns.
  pub bind_congr :
      (m : Exec S A) (f g : A → Exec S B) (s : S)
      → ((a : A) → (m s).0 ≡ ok a → f a (m s).1 ≡ g a (m s).1)
      → (m >>= f) s ≡ (m >>= g) s
  unfolding ◌>>=◌
  bind_congr m f g s h = proceed_congr (m s).0 f g (m s).1 h

  bind_err :
      (m : Exec S A) (f : A → Exec S B) (s : S) {e : Error} {t : S}
      → m s ≡ (err e, t)
      → (m >>= f) s ≡ (err e, t)
  unfolding ◌>>=◌
  bind_err m f s h = rw (h, proceed) refl

  proceed_ok :
      (r : Result A) (f : A → Exec S B) (s t : S) {b : B}
      → (proceed r f t).0 ≡ ok b
      → (a : A) × (r ≡ ok a) × ((f a t).0 ≡ ok b)
  proceed_ok (ok a) f s t h = (a, refl, h)
  proceed_ok (err e) f s t h = cc
  proceed_ok pending f s t h = cc

  -- A composed call that returned has run both parts.
  pub bind_ok :
      (m : Exec S A) (f : A → Exec S B) (s : S) {b : B}
      → ((m >>= f) s).0 ≡ ok b
      → (a : A) × ((m s).0 ≡ ok a) × ((m >>= f) s ≡ f a (m s).1) × ((f a (m s).1).0 ≡ ok b)
  unfolding ◌>>=◌
  bind_ok m f s {b} h =
      let (a, e, k) = proceed_ok (m s).0 f s (m s).1 h in (a, e, ap (λ r. proceed r f (m s).1) e, k)

module _ {S A : Type 0} where
  handle_congr :
      (r : Result A) (h k : Error → Exec S A) (t : S)
      → ((e : Error) → r ≡ err e → h e t ≡ k e t)
      → handle r h t ≡ handle r k t
  handle_congr (ok a) h k t p = refl
  handle_congr (err e) h k t p = p e refl
  handle_congr pending h k t p = refl

  -- Two handlers are compared only where the call raises.
  pub catch_congr :
      (m : Exec S A) (h k : Error → Exec S A) (s : S)
      → ((e : Error) → (m s).0 ≡ err e → h e (m s).1 ≡ k e (m s).1)
      → catch m h s ≡ catch m k s
  unfolding catch
  catch_congr m h k s p = handle_congr (m s).0 h k (m s).1 p

  pub catch_step :
      (m : Exec S A) (h : Error → Exec S A) (s : S) {x : Error}
      → (m s).0 ≡ err x
      → catch m h s ≡ h x (m s).1
  unfolding catch
  catch_step m h s e = ap (λ r. handle r h (m s).1) e

  pub catch_ok :
      (m : Exec S A) (h : Error → Exec S A) (s : S) {a : A} {t : S}
      → m s ≡ (ok a, t)
      → catch m h s ≡ (ok a, t)
  unfolding catch
  catch_ok m h s e = rw (e, handle) refl

  pub catch_err :
      (m : Exec S A) (h : Error → Exec S A) (s : S) {x : Error} {t : S}
      → m s ≡ (err x, t)
      → catch m h s ≡ h x t
  unfolding catch
  catch_err m h s e = rw (e, handle) refl

-- A property of the end of a composed call, by the end of its first part.
module _ {S A B : Type 0} where
  proceed_cases :
      (P : Result B × S → Type 0) (r : Result A) (f : A → Exec S B) (t : S)
      → ((a : A) → r ≡ ok a → P (f a t))
      → ((e : Error) → r ≡ err e → P (err e, t))
      → (r ≡ pending → P (pending, t))
      → P (proceed r f t)
  proceed_cases P (ok a) f t x y z = x a refl
  proceed_cases P (err e) f t x y z = y e refl
  proceed_cases P pending f t x y z = z refl

  pub bind_cases :
      (P : Result B × S → Type 0) (m : Exec S A) (f : A → Exec S B) (s : S)
      → ((a : A) → (m s).0 ≡ ok a → P (f a (m s).1))
      → ((e : Error) → (m s).0 ≡ err e → P (err e, (m s).1))
      → ((m s).0 ≡ pending → P (pending, (m s).1))
      → P ((m >>= f) s)
  unfolding ◌>>=◌
  bind_cases P m f s x y z = proceed_cases P (m s).0 f (m s).1 x y z

module _ {S A : Type 0} where
  handle_cases :
      (P : Result A × S → Type 0) (r : Result A) (h : Error → Exec S A) (t : S)
      → ((a : A) → r ≡ ok a → P (ok a, t))
      → ((e : Error) → r ≡ err e → P (h e t))
      → (r ≡ pending → P (pending, t))
      → P (handle r h t)
  handle_cases P (ok a) h t x y z = x a refl
  handle_cases P (err e) h t x y z = y e refl
  handle_cases P pending h t x y z = z refl

  pub catch_cases :
      (P : Result A × S → Type 0) (m : Exec S A) (h : Error → Exec S A) (s : S)
      → ((a : A) → (m s).0 ≡ ok a → P (ok a, (m s).1))
      → ((e : Error) → (m s).0 ≡ err e → P (h e (m s).1))
      → ((m s).0 ≡ pending → P (pending, (m s).1))
      → P (catch m h s)
  unfolding catch
  catch_cases P m h s x y z = handle_cases P (m s).0 h (m s).1 x y z
