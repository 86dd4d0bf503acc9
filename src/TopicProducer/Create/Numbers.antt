-- ===== src/TopicProducer/Create/Numbers.antt =====
-- The request numbers of `create`, and what else it may change.
use danube_py.Prelude.{ℕ, ◌≤◌, ◌<◌, arith}
use danube_py.Errors.{Result, ok, err, pending}
use danube_py.Exec.{state, ◌>>=◌}
use danube_py.Exec.Ensures.{EndsWell, Ensures, ends_well, Ensures-last, Ensures-first}
use danube_py.Env.{Env}
use danube_py.TopicProducer as Topic
use danube_py.TopicProducer.{Session, next_request_id}
use danube_py.TopicProducer.Create.{request_producer, register, try_create, create}
use danube_py.TopicProducer.Create.Ending.{evolving, create-Ensures}
use danube_py.Growth.Session.{Evolves}
use danube_py.Growth.Session.Calls.{connect-Evolves}
use danube_py.Growth.Session.Create.{request_numbered-Evolves, register-Evolves, create-Evolves}

-- The next request number after a call: another one if the call returned.
abbrev pub HasCounted : {A : Type 0} → Result A → ℕ → ℕ → Type 0
HasCounted (ok a) before after = before < after
HasCounted _ before after = before ≤ after

module _ {E : Env} where
  abbrev IsFrom : ℕ → Session E → Type 0
  IsFrom n s = n ≤ s.this.request_id

  abbrev IsPast : ℕ → Session E → Type 0
  IsPast n s = n < s.this.request_id

  Evolves-IsFrom : (n : ℕ) (s t : Session E) → Evolves s t → IsFrom n s → IsFrom n t
  Evolves-IsFrom n s t e h = omega (arith, e.request_id)

  request_producer-Ensures : (n : ℕ) → Ensures (IsFrom n) (IsPast n) request_producer
  unfolding request_producer next_request_id state ◌>>=◌
  request_producer-Ensures n = record {
    at = λ s p.
        let u = (next_request_id s).1 in
        let grown = ((request_numbered-Evolves s.this.request_id).at u).request_id in
        ends_well (IsFrom n) (IsPast n) _ _ (omega arith) (omega arith);
  }

  try_create-Ensures : (n : ℕ) → Ensures (IsFrom n) (IsPast n) try_create
  unfolding try_create
  try_create-Ensures n =
      Ensures-last Topic.connect _
        (λ s p. Evolves-IsFrom n s (Topic.connect s).1 (connect-Evolves.at s) p)
        λ _.
          Ensures-first request_producer register (request_producer-Ensures n)
            (λ resp s p. omega (arith, ((register-Evolves resp).at s).request_id))
            (λ resp s p q. omega (arith, ((register-Evolves resp).at s).request_id))

  counted :
      {A : Type 0} (n : ℕ) (r : Result A) (t : Session E)
      → EndsWell (IsFrom n) (IsPast n) (r, t)
      → HasCounted r n t.this.request_id
  counted n (ok a) t h = h.1
  counted n (err e) t h = h
  counted n pending t h = h

  -- Whatever comes of `create`, the topic producer keeps its topic, name, schema reference, retry
  -- settings and stop event, and the client it shares only grows: its settings and established
  -- connections stay, its channels stay opened as the settings ask, its next request numbers do not go
  -- back, and no event or task is dropped. The producer's own next request number does not go back
  -- either, and if `create` returns it has been used: the next call gets a greater one.
  pub create-HasCounted :
      (s : Session E)
      → let (r, t) = create s in Evolves s t × HasCounted r s.this.request_id t.this.request_id
  create-HasCounted s =
      let n = s.this.request_id in
      (
        create-Evolves.at s,
        counted n (create s).0 (create s).1 (
            (create-Ensures evolving (Evolves-IsFrom n) (try_create-Ensures n)).at s (omega arith)),
      )
