-- ===== src/Exec/Steps.antt =====
-- How a call changes the state, whether it returns or raises: one rule for each way to build a call.
use danube_py.Prelude.{Bool, true, false, Option, none, some, if◌then◌else◌}
use danube_py.Errors.{Error, Result, ok, err, pending}
use danube_py.Exec.{
  Exec, pure, raise, diverge, gets, or_raise, catch, modify, state, ◌>>=◌, proceed, handle, zoom,
}

-- Such a relation can be followed through a sequence of calls.
pub record IsPreorder {S : Type 0} (R : S → S → Type 0) : Type 0 where
  pub reflexive : (s : S) → R s s
  pub transitive : (s t u : S) → R s t → R t u → R s u

-- `m` moves the state along `R`.
pub record Steps {S A : Type 0} (R : S → S → Type 0) (m : Exec S A) : Type 0 where
  pub at : (s : S) → R s (m s).1

module _ {S : Type 0} {R : S → S → Type 0} (p : IsPreorder R) where
  pub Steps-pure : {A : Type 0} (a : A) → Steps R (pure a)
  unfolding pure
  Steps-pure a = record { at = p.reflexive }

  pub Steps-raise : {A : Type 0} (e : Error) → Steps R (raise {A = A} e)
  unfolding raise
  Steps-raise e = record { at = p.reflexive }

  pub Steps-diverge : {A : Type 0} → Steps R (diverge {A = A})
  unfolding diverge
  Steps-diverge = record { at = p.reflexive }

  pub Steps-gets : {A : Type 0} (f : S → A) → Steps R (gets f)
  unfolding gets
  Steps-gets f = record { at = p.reflexive }

  pub Steps-or_raise : {A : Type 0} (o : Option A) (e : Error) → Steps R (or_raise o e)
  Steps-or_raise none e = Steps-raise e
  Steps-or_raise (some a) e = Steps-pure a

module _ {S : Type 0} {R : S → S → Type 0} where
  pub Steps-modify : (f : S → S) → ((s : S) → R s (f s)) → Steps R (modify f)
  unfolding modify
  Steps-modify f h = record { at = h }

module _ {S A : Type 0} {R : S → S → Type 0} where
  pub Steps-state : (f : S → A × S) → ((s : S) → R s (f s).1) → Steps R (state f)
  unfolding state
  Steps-state f h = record { at = h }

  pub Steps-if : (b : Bool) (m n : Exec S A) → Steps R m → Steps R n → Steps R (if b then m else n)
  Steps-if true m n hm hn = hm
  Steps-if false m n hm hn = hn

module _ {S : Type 0} {R : S → S → Type 0} (p : IsPreorder R) {A : Type 0} where
  proceed-steps :
      {B : Type 0} (r : Result A) (f : A → Exec S B) (s t : S)
      → R s t
      → ((a : A) → Steps R (f a))
      → R s (proceed r f t).1
  proceed-steps (ok a) f s t h hf = p.transitive s t (f a t).1 h ((hf a).at t)
  proceed-steps (err e) f s t h hf = h
  proceed-steps pending f s t h hf = h

  pub Steps-bind :
      {B : Type 0} (m : Exec S A) (f : A → Exec S B)
      → Steps R m
      → ((a : A) → Steps R (f a))
      → Steps R (m >>= f)
  unfolding ◌>>=◌
  Steps-bind m f hm hf = record { at = λ s. proceed-steps (m s).0 f s (m s).1 (hm.at s) hf }

  handle-steps :
      (r : Result A) (h : Error → Exec S A) (s t : S)
      → R s t
      → ((e : Error) → Steps R (h e))
      → R s (handle r h t).1
  handle-steps (ok a) h s t hr hh = hr
  handle-steps (err e) h s t hr hh = p.transitive s t (h e t).1 hr ((hh e).at t)
  handle-steps pending h s t hr hh = hr

  pub Steps-catch :
      (m : Exec S A) (h : Error → Exec S A)
      → Steps R m
      → ((e : Error) → Steps R (h e))
      → Steps R (catch m h)
  unfolding catch
  Steps-catch m h hm hh = record { at = λ s. handle-steps (m s).0 h s (m s).1 (hm.at s) hh }

module _ {S T A : Type 0} {R : S → S → Type 0} {Q : T → T → Type 0} where
  pub Steps-zoom :
      (get : S → T) (put : T → S → S) (m : Exec T A)
      → ((s : S) (t : T) → Q (get s) t → R s (put t s))
      → Steps Q m
      → Steps R (zoom get put m)
  unfolding zoom
  Steps-zoom get put m lift h = record { at = λ s. lift s (m (get s)).1 (h.at (get s)) }

pub ruleset steps_rules = (
  Steps-pure, Steps-raise, Steps-diverge, Steps-gets, Steps-or_raise, Steps-if, Steps-bind,
  Steps-catch,
)
