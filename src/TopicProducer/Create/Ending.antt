-- ===== src/TopicProducer/Create/Ending.antt =====
-- What `create` leaves when it returns is what `register` has left in the attempt that succeeded.
use danube_py.Prelude.{ℕ, zero, suc, ◌+◌}
use danube_py.Errors.{Error}
use danube_py.Exec.{Exec, ◌>>=◌}
use danube_py.Exec.Steps.{Steps}
use danube_py.Exec.Ensures.{
  Ensures, Ensures-raise, Ensures-diverge, Ensures-if, Ensures-last, Ensures-catch,
}
use danube_py.Env.{Env}
use danube_py.Env.Api.{ProducerResponse}
use danube_py.Growth.Session.{Evolves, get_this-Evolves}
use danube_py.Growth.Session.Calls.{connect-Evolves, lookup_new_broker-Evolves}
use danube_py.Growth.Session.Create.{request_producer-Evolves, back_off-Evolves}
use danube_py.TopicProducer as Topic
use danube_py.TopicProducer.{TopicProducer, Session, get_this, lookup_new_broker}
use danube_py.TopicProducer.Create.{
  register, request_producer, try_create, back_off, after_failure, create_loop, create,
}

-- What the other calls of `create` do.
pub record Prepares {E : Env} (R : Session E → Session E → Type 0) : Type 0 where
  pub looks_up : Steps R lookup_new_broker
  pub connects : Steps R Topic.connect
  pub requests : Steps R request_producer
  pub backs_off : (attempt : ℕ) → Steps R (back_off attempt)
  pub reads : (f : TopicProducer E → ℕ) → Steps R (get_this f)

module _ {E : Env} {R : Session E → Session E → Type 0} {P Q : Session E → Type 0}
    (prepares : Prepares R) (keep : (s t : Session E) → R s t → P s → P t) where
  after :
      {A : Type 0} (m : Exec (Session E) A) (f : A → Exec (Session E) ℕ)
      → Steps R m
      → ((a : A) → Ensures P Q (f a))
      → Ensures P Q (m >>= f)
  after m f h k = Ensures-last m f (λ s p. keep s (m s).1 (h.at s) p) k

  pub try_create-Ensures :
      ((resp : ProducerResponse) → Ensures P Q (register resp)) → Ensures P Q try_create
  unfolding try_create
  try_create-Ensures registers =
      after Topic.connect _ prepares.connects
        λ _. after request_producer register prepares.requests registers

  after_failure-Ensures :
      (e : Error) (max_retries attempts : ℕ) (again : Exec (Session E) ℕ)
      → Ensures P Q again
      → Ensures P Q (after_failure e max_retries attempts again)
  after_failure-Ensures e max_retries attempts again h =
      Ensures-if _ _ _ (Ensures-if _ _ _ (Ensures-raise e) h) (Ensures-raise e)

  create_loop-Ensures :
      Ensures P Q try_create → (fuel attempts : ℕ) → Ensures P Q (create_loop fuel attempts)
  unfolding create_loop
  create_loop-Ensures tries zero attempts = Ensures-diverge
  create_loop-Ensures tries (suc fuel) attempts = Ensures-catch try_create _ tries λ e.
      after (get_this λ p. p.retry_manager.max_retries) _ (prepares.reads _) λ n.
        after_failure-Ensures e n attempts _ (
          after lookup_new_broker _ prepares.looks_up λ _.
            after (back_off attempts) _ (prepares.backs_off attempts)
              λ _. create_loop-Ensures tries fuel (attempts + 1))

  pub create-Ensures : Ensures P Q try_create → Ensures P Q create
  unfolding create
  create-Ensures tries = after lookup_new_broker _ prepares.looks_up λ _.
      after (get_this λ p. p.retry_manager.max_retries) _ (prepares.reads _)
        λ n. create_loop-Ensures tries (suc n) 0

module _ {E : Env} where
  pub evolving : Prepares (Evolves {E = E})
  evolving = record {
    looks_up = lookup_new_broker-Evolves;
    connects = connect-Evolves;
    requests = request_producer-Evolves;
    backs_off = back_off-Evolves;
    reads = get_this-Evolves;
  }
