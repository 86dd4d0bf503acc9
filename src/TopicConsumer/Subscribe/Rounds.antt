-- ===== src/TopicConsumer/Subscribe/Rounds.antt =====
-- How often `subscribe` tries, and that its rounds are enough.
use danube_py.Prelude.{ℕ, zero, suc, ◌+◌, ◌<◌, ◌≡◌, refl, sym, ap, subst, ◌∙◌}
use danube_py.Errors.{ok}
use danube_py.Exec.{modify, ◌>>=◌, ◌>>◌}
use danube_py.Exec.NoError.{NoError, caught-NoError}
use danube_py.Exec.Inversion.{bind_congr, bind_step}
use danube_py.Env.{Env}
use danube_py.Client.{outside}
use danube_py.Connection.Opened.{get_connection_ok}
use danube_py.Lookup.{handle_lookup}
use danube_py.Retry.Backoff.{IsValid, calculate_backoff_ok}
use danube_py.Retry.Attempts.{Retrying, loop, start, round}
use danube_py.Retry.Attempts.Tried.{Tried, start-Tried}
use danube_py.Retry.Attempts.Enough.{start_rounds}
use danube_py.TopicConsumer.{
  Subscriber, on_client, get_this, next_request_id, connect, use_address, lookup_new_broker,
}
use danube_py.TopicConsumer.Subscribe.{
  subscribe_numbered, register, try_subscribe, back_off, subscribe_loop, subscribe,
}
use danube_py.TopicConsumer.Subscribe.Counting.{
  connect-Same, lookup_new_broker-Same, back_off-Same, numbered-Same,
}

module _ {E : Env} where
  connect_ok : (s : Subscriber E) → (connect s).0 ≡ ok tt
  unfolding connect
  connect_ok s =
      let (conn, e) = get_connection_ok s.this.broker_addr s.this.connect_url s.client in rw e refl

  -- An attempt connects, and then goes on with the next request number.
  try_subscribe_lem :
      (s : Subscriber E)
      → let t = (connect s).1 in
        try_subscribe s ≡ (subscribe_numbered t.this.request_id >>= register) (next_request_id t).1
  unfolding try_subscribe next_request_id ◌>>=◌
  try_subscribe_lem s =
      bind_step connect (λ _. next_request_id >>= subscribe_numbered >>= register) s (connect_ok s)

  -- An attempt uses up one request number, and the retry settings stay.
  pub try_subscribe_counts :
      (s : Subscriber E)
      → ((try_subscribe s).1.this.request_id ≡ s.this.request_id + 1)
        × ((try_subscribe s).1.this.retry_manager ≡ s.this.retry_manager)
  unfolding next_request_id
  try_subscribe_counts s =
      let t = (connect s).1 in
      let c = connect-Same.at s in
      let d = (numbered-Same t.this.request_id).at (next_request_id t).1 in
      rw (try_subscribe_lem s)
        (d.request_id ∙ ap (λ n. n + 1) c.request_id, d.retry_manager ∙ c.retry_manager)

  pub lookup_new_broker-NoError : (s : Subscriber E) → NoError (lookup_new_broker s).0
  unfolding lookup_new_broker ◌>>=◌ get_this
  lookup_new_broker-NoError s =
      caught-NoError
        (on_client (handle_lookup s.this.connect_url s.this.topic_name) >>= use_address) tt s

  pub back_off-NoError :
      (attempt : ℕ) (s : Subscriber E)
      → IsValid s.this.retry_manager
      → NoError (back_off attempt s).0
  unfolding back_off get_this ◌>>=◌ on_client outside modify
  back_off-NoError attempt s v =
      let (ms, k) = calculate_backoff_ok E s.this.retry_manager attempt s.client.world v in rw k tt

  -- The loop of `subscribe` as one that is shared.
  abbrev pub subscribing : Retrying (Subscriber E)
  subscribing = record {
    count = λ s. s.this.request_id;
    settings = λ s. s.this.retry_manager;
    attempt = try_subscribe;
    find = lookup_new_broker;
    wait = back_off;
    attempt_count = λ s. (try_subscribe_counts s).0;
    attempt_settings = λ s. (try_subscribe_counts s).1;
    find_count = λ s. (lookup_new_broker-Same.at s).request_id;
    find_settings = λ s. (lookup_new_broker-Same.at s).retry_manager;
    find_returns = lookup_new_broker-NoError;
    wait_count = λ n s. ((back_off-Same n).at s).request_id;
    wait_settings = λ n s. ((back_off-Same n).at s).retry_manager;
    wait_returns = back_off-NoError;
  }

  subscribe_loop-loop :
      (fuel attempts : ℕ) → subscribe_loop fuel attempts ≡ loop subscribing fuel attempts
  unfolding subscribe_loop loop get_this
  subscribe_loop-loop zero attempts = refl
  subscribe_loop-loop (suc fuel) attempts =
      ap (round subscribing attempts) (subscribe_loop-loop fuel (attempts + 1))

  subscribe-start : (s : Subscriber E) → subscribe s ≡ start subscribing s
  unfolding subscribe start get_this
  subscribe-start s = bind_congr lookup_new_broker _ _ s λ _ _.
      let t = (lookup_new_broker s).1 in
      ap (λ m. m t) (subscribe_loop-loop (suc t.this.retry_manager.max_retries) 0)

  -- With positive retry settings `subscribe` of a topic consumer uses up at most one request number more
  -- than `max_retries`, one for each attempt, and exactly that many if it raises an error that may
  -- pass; and the rounds that the model gives its loop are enough: with more of them the result and
  -- the state are the same.
  pub subscribe_attempts :
      (g : ℕ) (s : Subscriber E)
      → IsValid s.this.retry_manager
      → s.this.retry_manager.max_retries < g
      → Tried subscribing s.this.retry_manager.max_retries 0 s (subscribe s)
        × (subscribe s ≡ (lookup_new_broker >> subscribe_loop g 0) s)
  subscribe_attempts g s v h = (
    subst (Tried subscribing s.this.retry_manager.max_retries 0 s) (sym (subscribe-start s))
        (start-Tried subscribing s v),
    subscribe-start s
        ∙ start_rounds subscribing g s h
        ∙ sym (ap (λ m. (lookup_new_broker >> m) s) (subscribe_loop-loop g 0)),
  )
