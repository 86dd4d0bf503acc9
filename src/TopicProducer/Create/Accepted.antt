-- ===== src/TopicProducer/Create/Accepted.antt =====
-- `create` with a broker that accepts: it returns, with a connection.
use danube_py.Prelude.{ℕ, suc, some, ◌≡◌, refl, ◌∙◌}
use danube_py.Errors.{ok}
use danube_py.Exec.{Exec, pure, modify, zoom, catch, ◌>>=◌}
use danube_py.Exec.Steps.{Steps}
use danube_py.Exec.Returns.{Returns, Returns-gets, Returns-catch, Returns-bind}
use danube_py.Env.{Env}
use danube_py.Env.Api.{ProducerResponse}
use danube_py.Client.{outside}
use danube_py.Connection.Opened.{get_connection_ok}
use danube_py.Growth.Session.{Evolves}
use danube_py.Growth.Session.Calls.{connect-Evolves}
use danube_py.Growth.Session.Create.{
  request_numbered-Evolves, set_producer_id-Evolves, begin_health_check-Evolves,
}
use danube_py.Health.Recreated.{begin_health_check_ok}
use danube_py.TopicProducer as Topic
use danube_py.TopicProducer.{TopicProducer, Session, on_client, get_this, set_this, next_request_id}
use danube_py.TopicProducer.Accepted.{
  Accepts, IsPlain, IsPlain-Evolves, call_metadata_ok, get_this-Returns, lookup_new_broker-Returns,
}
use danube_py.TopicProducer.Create.{
  producer_request, request_numbered, request_producer, begin_health_check, adopt_schema, register,
  try_create, create_loop, create,
}

module _ {E : Env} where
  pub record IsConnected (s : Session E) : Type 0 where
    pub plain : IsPlain s
    pub channel : E.Channel
    pub stub : s.this.stub ≡ some channel

  -- A call that returns, evolves the session and keeps the connection.
  keeping-Returns :
      {A : Type 0} (m : Exec (Session E) A)
      → ((s : Session E) → IsConnected s → (a : A) × ((m s).0 ≡ ok a))
      → ((s : Session E) → IsConnected s → (m s).1.this.stub ≡ s.this.stub)
      → Steps Evolves m
      → Returns IsConnected IsConnected m
  keeping-Returns m h k e = record {
    at = λ s c.
        let (a, f) = h s c in
        (
          a,
          f,
          record {
            plain = IsPlain-Evolves s (m s).1 c.plain (e.at s);
            channel = c.channel;
            stub = k s c ∙ c.stub;
          },
        );
  }

  connect_stub :
      (s : Session E)
      → (ch : E.Channel) × ((Topic.connect s).0 ≡ ok tt) × ((Topic.connect s).1.this.stub ≡ some ch)
  unfolding Topic.connect get_this set_this on_client zoom modify ◌>>=◌
  connect_stub s =
      let (conn, e) = get_connection_ok s.this.broker_addr s.this.connect_url s.client in
      (conn.channel, rw e refl, rw e refl)

  connect-Returns : Returns IsPlain IsConnected Topic.connect
  connect-Returns = record {
    at = λ s p.
        let (ch, e, stub) = connect_stub s in
        (
          tt,
          e,
          record {
            plain = IsPlain-Evolves s _ p (connect-Evolves.at s);
            channel = ch;
            stub = stub;
          },
        );
  }

  request_numbered-Returns :
      (n : ℕ) → Accepts E → Returns IsConnected IsConnected (request_numbered n)
  unfolding request_numbered get_this on_client zoom outside catch pure ◌>>=◌
  request_numbered-Returns n h =
      keeping-Returns (request_numbered n)
        (λ s c.
          let (md, e) = call_metadata_ok s c.plain in
          let (r, k) = h.registers c.channel (producer_request s.this n) md s.client.world in
          (r, rw (e, c.stub, k) refl))
        (λ s c.
          let (md, e) = call_metadata_ok s c.plain in
          let (r, k) = h.registers c.channel (producer_request s.this n) md s.client.world in
          rw (e, c.stub, k) refl)
        (request_numbered-Evolves n)

  request_producer-Returns : Accepts E → Returns IsConnected IsConnected request_producer
  unfolding request_producer next_request_id ◌>>=◌
  request_producer-Returns h = record {
    at = λ s c. (request_numbered-Returns s.this.request_id h).at (next_request_id s).1 (record {
      plain = record { schema_ref = c.plain.schema_ref; token_supplier = c.plain.token_supplier };
      channel = c.channel;
      stub = c.stub;
    });
  }

  set_producer_id-Returns :
      (id : ℕ) → Returns IsConnected IsConnected (set_this λ p. record p { producer_id = id })
  unfolding set_this modify
  set_producer_id-Returns id =
      keeping-Returns _ (λ s c. (tt, refl)) (λ s c. refl) (set_producer_id-Evolves id)

  begin_health_check-Returns : Returns IsConnected IsConnected begin_health_check
  begin_health_check-Returns =
      keeping-Returns begin_health_check (λ s c. (tt, (begin_health_check_ok s).0))
        (λ s c. (begin_health_check_ok s).1) begin_health_check-Evolves

  adopt_schema_ok : (s : Session E) → IsPlain s → adopt_schema s ≡ (ok tt, s)
  unfolding adopt_schema get_this pure ◌>>=◌
  adopt_schema_ok s p = rw (p.schema_ref) refl

  adopt_schema-Returns : Returns IsConnected IsConnected adopt_schema
  adopt_schema-Returns = record { at = λ s c. rw (adopt_schema_ok s c.plain) (tt, refl, c) }

  register-Returns : (resp : ProducerResponse) → Returns IsConnected IsConnected (register resp)
  unfolding register get_this
  register-Returns resp = Returns-bind _ _ (set_producer_id-Returns resp.producer_id) λ _.
      Returns-bind _ _ begin_health_check-Returns
        λ _. Returns-bind _ _ adopt_schema-Returns λ _. Returns-gets λ s. s.this.producer_id

  try_create-Returns : Accepts E → Returns IsPlain IsConnected try_create
  unfolding try_create
  try_create-Returns h =
      Returns-bind Topic.connect _ connect-Returns
        λ _. Returns-bind request_producer register (request_producer-Returns h) register-Returns

  create_loop-Returns :
      (fuel attempts : ℕ)
      → Accepts E
      → Returns IsPlain IsConnected (create_loop (suc fuel) attempts)
  unfolding create_loop
  create_loop-Returns fuel attempts h = Returns-catch try_create _ (try_create-Returns h)

  -- With such a broker `create` of a plain topic producer returns, and leaves it connected.
  pub create-Returns : Accepts E → Returns IsPlain IsConnected create
  unfolding create
  create-Returns h = Returns-bind _ _ (lookup_new_broker-Returns h) λ _.
      Returns-bind _ _ (get_this-Returns λ p. p.retry_manager.max_retries)
        λ n. create_loop-Returns n 0 h
