-- ===== src/Growth/Work.antt =====
-- The retry loop of a producer: it works on one topic producer and the client, and leaves the rest.
use danube_py.Prelude.{
  ℕ, zero, suc, ◌+◌, String, ℤ, Option, none, some, List, ◌≡◌, refl, ap, ◌∙◌, length, length-set,
}
use danube_py.Errors.{Error, index_error}
use danube_py.Exec.{Exec}
use danube_py.Exec.Steps.{
  IsPreorder, Steps, Steps-raise, Steps-gets, Steps-bind, Steps-catch, steps_rules,
}
use danube_py.Env.{Env}
use danube_py.Env.Api.{Bytes}
use danube_py.Client.{Client}
use danube_py.Connection.Growth.{Grows, Grows-preorder, outside-Grows}
use danube_py.Growth.Session.{Evolves, session_rules}
use danube_py.Growth.Session.Calls.{send-Evolves, use_address-Evolves}
use danube_py.Growth.Session.Create.{create-Evolves}
use danube_py.Retry.{RetryManager}
use danube_py.TopicProducer.{TopicProducer, Session}
use danube_py.TopicProducer.Create.{create}
use danube_py.Producer.{Producer, Work, get_this, on_client, on_item, on_producer, on_found}
use danube_py.Producer.Send.{
  recreate_producer, relocate, lookup_and_recreate, back_off, after_failure, send_loop, deliver,
}

module _ {E : Env} where
  -- Only the client and the topic producers have changed, and the latter are as many.
  pub record Persists (s t : Work E) : Type 0 where
    pub client : Grows s.client t.client
    pub rest : t.this ≡ record (s.this) { producers = t.this.producers }
    pub count : length t.this.producers ≡ length s.this.producers

  Persists-preorder : IsPreorder Persists
  Persists-preorder = record {
    reflexive =
        λ s. record { client = Grows-preorder.reflexive s.client; rest = refl; count = refl };
    transitive = λ s t u f g. record {
      client = Grows-preorder.transitive s.client t.client u.client f.client g.client;
      rest = g.rest ∙ ap {A = Producer E} (λ p. record p { producers = u.this.producers }) f.rest;
      count = g.count ∙ f.count;
    };
  }

  on_client-Persists :
      {A : Type 0} (m : Exec (Client E) A) → Steps Grows m → Steps Persists (on_client m)
  unfolding on_client
  on_client-Persists m h = record {
    at = λ s. record { client = h.at s.client; rest = refl; count = refl };
  }

  get_this-Persists : {A : Type 0} (f : Producer E → A) → Steps Persists (get_this f)
  unfolding get_this
  get_this-Persists f = Steps-gets Persists-preorder _

  on_item-Persists :
      {A : Type 0} (i : ℕ) (tp : TopicProducer E) (m : Exec (Session E) A)
      → Steps Evolves m
      → Steps Persists (on_item i tp m)
  unfolding on_item
  on_item-Persists i tp m h = record {
    at = λ s. record {
      client = (h.at (record { this = tp; client = s.client })).client;
      rest = refl;
      count = length-set s.this.producers i _;
    };
  }

  on_found-Persists :
      {A : Type 0} (found : Option (ℕ × TopicProducer E)) (m : Exec (Session E) A)
      → Steps Evolves m
      → Steps Persists (on_found found m)
  on_found-Persists none m h = Steps-raise Persists-preorder index_error
  on_found-Persists (some (i, tp)) m h = on_item-Persists i tp m h

  on_producer-Persists :
      {A : Type 0} (partition_id : ℤ) (m : Exec (Session E) A)
      → Steps Evolves m
      → Steps Persists (on_producer partition_id m)
  unfolding on_producer
  on_producer-Persists partition_id m h =
      Steps-bind Persists-preorder _ _ (get_this-Persists _) λ found. on_found-Persists found m h

-- The rules for the calls of a producer.
ruleset work_rules = (
  steps_rules, Persists-preorder, on_client-Persists, get_this-Persists, on_producer-Persists,
  outside-Grows,
)

module _ {E : Env} where
  recreate_producer-Persists : (i : ℤ) → Steps (Persists {E = E}) (recreate_producer i)
  unfolding recreate_producer
  recreate_producer-Persists i = on_producer-Persists i create create-Evolves

  relocate-Evolves : (err : Error) → Steps (Evolves {E = E}) (relocate err)
  unfolding relocate
  relocate-Evolves err = search (session_rules, use_address-Evolves, create-Evolves) depth 9

  lookup_and_recreate-Persists :
      (i : ℤ) (err : Error) → Steps (Persists {E = E}) (lookup_and_recreate i err)
  unfolding lookup_and_recreate
  lookup_and_recreate-Persists i err = on_producer-Persists i (relocate err) (relocate-Evolves err)

  back_off-Persists :
      (m : RetryManager) (attempt : ℕ) → Steps (Persists {E = E}) (back_off m attempt)
  unfolding back_off
  back_off-Persists m attempt = search work_rules depth 7

  after_failure-Persists :
      (m : RetryManager) (i : ℤ) (err : Error) (attempts : ℕ) (restart retry : Exec (Work E) ℕ)
      → Steps Persists restart
      → Steps Persists retry
      → Steps Persists (after_failure m i err attempts restart retry)
  after_failure-Persists m i err attempts restart retry h k =
      search
        (work_rules, recreate_producer-Persists, lookup_and_recreate-Persists, back_off-Persists)
        depth 9

  send_loop-Persists :
      (m : RetryManager) (i : ℤ) (payload : Bytes) (attributes : Option (List (String × String)))
      (routing_key : Option String) (fuel attempts : ℕ)
      → Steps (Persists {E = E}) (send_loop m i payload attributes routing_key fuel attempts)
  unfolding send_loop
  send_loop-Persists m i payload attributes routing_key zero attempts = search work_rules
  send_loop-Persists m i payload attributes routing_key (suc fuel) attempts =
      Steps-catch Persists-preorder _ _
        (on_producer-Persists i _ (send-Evolves payload attributes routing_key))
        λ err.
          after_failure-Persists m i err attempts _ _
            (send_loop-Persists m i payload attributes routing_key fuel 0)
            (send_loop-Persists m i payload attributes routing_key fuel (attempts + 1))

  -- Whatever comes of the delivery of a message, the producer keeps all but its list of topic producers,
  -- which stays as long; and the client it shares only grows: its settings and established connections
  -- stay, its channels stay opened as the settings ask, its next request numbers do not go back, and
  -- no event or task is dropped.
  pub deliver-Persists :
      (fuel : ℕ) (i : ℤ) (payload : Bytes) (attributes : Option (List (String × String)))
      (routing_key : Option String)
      → Steps (Persists {E = E}) (deliver fuel i payload attributes routing_key)
  unfolding deliver
  deliver-Persists fuel i payload attributes routing_key =
      search (work_rules, send_loop-Persists) depth 7
