-- ===== src/TopicProducer/Create/Rounds.antt =====
-- How often `create` tries.
pub mod Attempts
use danube_py.Prelude.{
  ℕ, zero, suc, ◌+◌, ◌-◌, ◌≤◌, ◌<◌, String, Bool, true, false, none, some, ◌≡◌, refl, ap, ◌∙◌,
  arith, ltb, if◌then◌else◌, Bool-cases, inl, inr, ltb→lt, ltb→ge,
}
use danube_py.Errors.{Error, Result, ok, err, pending}
use danube_py.Exec.{Exec, ◌>>=◌, ◌>>◌, catch, handle, proceed, raise, pure, modify, gets}
use danube_py.Exec.NoError.{NoError, caught-NoError}
use danube_py.Exec.Inversion.{bind_congr}
use danube_py.Client.{outside}
use danube_py.Lookup.{handle_lookup}
use danube_py.Retry.Backoff.{IsValid, calculate_backoff_ok}
use danube_py.Retry.Attempts.{Retrying, loop, start, round}
use danube_py.Exec.Steps.{Steps, Steps-bind, steps_rules}
use danube_py.Env.{Env}
use danube_py.Env.Api.{ProducerResponse}
use danube_py.Retry.{is_retryable}
use danube_py.TopicProducer.{
  Session, TopicProducer, get_this, set_this, next_request_id, connect, lookup_new_broker,
  call_metadata, on_client, use_address,
}
use danube_py.Connection.Opened.{get_connection_ok}
use danube_py.TopicProducer.Create.{
  request_numbered, register, request_producer, begin_health_check, adopt_schema, try_create,
  back_off, after_failure, create_loop, create,
}
use danube_py.TopicProducer.Create.Counting.{
  register-Same, request_numbered-Same, Same, Same-preorder, set_this-Same, get_this-Same,
  on_client-Same, connect-Same, lookup_new_broker-Same, call_metadata-Same, begin_health_check-Same,
  adopt_schema-Same, back_off-Same, same_rules,
}

module _ {E : Env} where
  -- One request number is given out, and the retry settings stay.
  pub record Counts (n : ℕ) (s t : Session E) : Type 0 where
    pub request_id : t.this.request_id ≡ s.this.request_id + n
    pub retry_manager : t.this.retry_manager ≡ s.this.retry_manager

  Counts-Same : {n : ℕ} (s t u : Session E) → Counts n s t → Same t u → Counts n s u
  Counts-Same s t u f g = record {
    request_id = g.request_id ∙ f.request_id;
    retry_manager = g.retry_manager ∙ f.retry_manager;
  }

  Same-Counts : {n : ℕ} (s t u : Session E) → Same s t → Counts n t u → Counts n s u
  Same-Counts s t u f g = record {
    request_id = omega (arith, f.request_id, g.request_id);
    retry_manager = g.retry_manager ∙ f.retry_manager;
  }

  proceed-Counts :
      {A B : Type 0} {n : ℕ} (r : Result A) (f : A → Exec (Session E) B) (s t : Session E)
      → Counts n s t
      → ((a : A) → Steps Same (f a))
      → Counts n s (proceed r f t).1
  proceed-Counts (ok a) f s t c h = Counts-Same s t (f a t).1 c ((h a).at t)
  proceed-Counts (err e) f s t c h = c
  proceed-Counts pending f s t c h = c

  request_producer-Counts : (s : Session E) → Counts 1 s (request_producer s).1
  unfolding request_producer
  request_producer-Counts s =
      let t = (next_request_id s).1 in
      Counts-Same s t (request_numbered s.this.request_id t).1
        (record { request_id = refl; retry_manager = refl })
        ((request_numbered-Same s.this.request_id).at t)

  connect_ok : (s : Session E) → (connect s).0 ≡ ok tt
  unfolding connect
  connect_ok s =
      let (conn, e) = get_connection_ok s.this.broker_addr s.this.connect_url s.client in rw e refl

  pub try_create-Counts : (s : Session E) → Counts 1 s (try_create s).1
  unfolding try_create ◌>>=◌
  try_create-Counts s =
      let t = (connect s).1 in
      rw (connect_ok s) (
        Same-Counts s t _ (connect-Same.at s) (
          proceed-Counts (request_producer t).0 register t (request_producer t).1
            (request_producer-Counts t) register-Same))

  pub lookup_new_broker-NoError : (s : Session E) → NoError (lookup_new_broker s).0
  unfolding lookup_new_broker ◌>>=◌ get_this
  lookup_new_broker-NoError s =
      caught-NoError (on_client (handle_lookup s.this.connect_url s.this.topic) >>= use_address) tt
        s

  pub back_off-NoError :
      (attempt : ℕ) (s : Session E) → IsValid s.this.retry_manager → NoError (back_off attempt s).0
  unfolding back_off get_this ◌>>=◌ on_client outside modify
  back_off-NoError attempt s v =
      let (ms, k) = calculate_backoff_ok E s.this.retry_manager attempt s.client.world v in rw k tt

  -- The loop of `create` as one that is shared.
  abbrev pub creating : Retrying (Session E)
  creating = record {
    count = λ s. s.this.request_id;
    settings = λ s. s.this.retry_manager;
    attempt = try_create;
    find = lookup_new_broker;
    wait = back_off;
    attempt_count = λ s. (try_create-Counts s).request_id;
    attempt_settings = λ s. (try_create-Counts s).retry_manager;
    find_count = λ s. (lookup_new_broker-Same.at s).request_id;
    find_settings = λ s. (lookup_new_broker-Same.at s).retry_manager;
    find_returns = lookup_new_broker-NoError;
    wait_count = λ n s. ((back_off-Same n).at s).request_id;
    wait_settings = λ n s. ((back_off-Same n).at s).retry_manager;
    wait_returns = back_off-NoError;
  }

  pub create_loop-loop :
      (fuel attempts : ℕ) → create_loop fuel attempts ≡ loop creating fuel attempts
  unfolding create_loop loop get_this
  create_loop-loop zero attempts = refl
  create_loop-loop (suc fuel) attempts =
      ap (round creating attempts) (create_loop-loop fuel (attempts + 1))

  pub create-start : (s : Session E) → create s ≡ start creating s
  unfolding create start get_this
  create-start s = bind_congr lookup_new_broker _ _ s λ _ _.
      let t = (lookup_new_broker s).1 in
      ap (λ m. m t) (create_loop-loop (suc t.this.retry_manager.max_retries) 0)
