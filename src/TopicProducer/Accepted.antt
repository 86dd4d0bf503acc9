-- ===== src/TopicProducer/Accepted.antt =====
-- Topic producers without a schema, with a broker that accepts them.
use danube_py.Prelude.{String, none, ◌≡◌, refl, ap, ◌∙◌}
use danube_py.Errors.{ok}
use danube_py.Exec.{Exec, pure, modify, zoom, ◌>>=◌}
use danube_py.Exec.Steps.{Steps}
use danube_py.Exec.Returns.{Returns, Returns-gets, Returns-catch, Returns-bind}
use danube_py.Env.{Env, Metadata}
use danube_py.Env.Api.{
  TopicLookupRequest, TopicLookupResponse, connect, ProducerRequest, ProducerResponse,
}
use danube_py.Client.{Client, BrokerAddress, outside, next_lookup_id}
use danube_py.Connection.{get_connection}
use danube_py.Connection.Growth.{get_connection-Grows}
use danube_py.Connection.Opened.{get_connection_ok}
use danube_py.Auth.{auth_metadata}
use danube_py.Auth.Token.{attach_token_static}
use danube_py.Lookup.{lookup_topic, handle_lookup, broker_address}
use danube_py.Lookup.Outcome.{answer, outcome, handle_lookup_lem}
use danube_py.Retry.{insert_proxy_header}
use danube_py.Growth.{handle_lookup-Grows}
use danube_py.Growth.Session.{Evolves, on_client-Evolves}
use danube_py.Growth.Session.Calls.{use_address-Evolves}
use danube_py.TopicProducer.{
  TopicProducer, Session, on_client, get_this, set_this, use_address, lookup_new_broker,
  call_metadata,
}

-- The broker finds every topic, and registers every producer.
pub record Accepts (E : Env) : Type 0 where
  pub looks_up :
      (ch : E.Channel) (req : TopicLookupRequest) (md : Metadata) (w : E.World)
      → (r : TopicLookupResponse) × ((E.topic_lookup ch req md w).0 ≡ ok r)
        × (r.response_type ≡ connect)
  pub registers :
      (ch : E.Channel) (req : ProducerRequest) (md : Metadata) (w : E.World)
      → (r : ProducerResponse) × ((E.create_producer ch req md w).0 ≡ ok r)

module _ {E : Env} where
  -- The producer needs no schema, and the token of the client, if it has one, is fixed.
  pub record IsPlain (s : Session E) : Type 0 where
    pub schema_ref : s.this.schema_ref ≡ none
    pub token_supplier : s.client.manager.options.token_supplier ≡ none

  pub IsPlain-Evolves : (s t : Session E) → IsPlain s → Evolves s t → IsPlain t
  IsPlain-Evolves s t p e = record {
    schema_ref = e.schema_ref ∙ p.schema_ref;
    token_supplier = ap (λ o. o.token_supplier) e.client.options ∙ p.token_supplier;
  }

  -- A call that returns and evolves the session.
  plain-Returns :
      {A : Type 0} (m : Exec (Session E) A)
      → ((s : Session E) → IsPlain s → (a : A) × ((m s).0 ≡ ok a))
      → Steps Evolves m
      → Returns IsPlain IsPlain m
  plain-Returns m h e = record {
    at = λ s p. let (a, k) = h s p in (a, k, IsPlain-Evolves s (m s).1 p (e.at s));
  }

  pub call_metadata_ok :
      (s : Session E) → IsPlain s → (md : Metadata) × (call_metadata s ≡ (ok md, s))
  unfolding call_metadata get_this on_client zoom pure ◌>>=◌
  call_metadata_ok s p =
      let o = s.client.manager.options in
      (
        insert_proxy_header (auth_metadata o.token o.internal_broker) s.this.broker_addr
            s.this.proxy,
        rw (attach_token_static s.this.connect_url s.client p.token_supplier) refl,
      )

  lookup_topic_ok :
      (addr topic : String) (c : Client E)
      → Accepts E
      → c.manager.options.token_supplier ≡ none
      → (r : TopicLookupResponse) × ((lookup_topic addr topic c).0 ≡ ok r)
        × (r.response_type ≡ connect)
  unfolding lookup_topic next_lookup_id outside ◌>>=◌
  lookup_topic_ok addr topic c h p =
      let (conn, e) = get_connection_ok addr addr c in
      let d = (get_connection addr addr c).1 in
      let static =
        attach_token_static addr d
          (ap (λ o. o.token_supplier) ((get_connection-Grows addr addr).at c).options ∙ p) in
      let (r, k, t) =
        h.looks_up conn.channel (record { request_id = d.lookup_id; topic = topic })
          (auth_metadata d.manager.options.token d.manager.options.internal_broker) d.world in
      (r, rw (e, static, k) refl, t)

  handle_lookup_ok :
      (addr topic : String) (c : Client E)
      → Accepts E
      → c.manager.options.token_supplier ≡ none
      → (a : BrokerAddress) × ((handle_lookup addr topic c).0 ≡ ok a)
  handle_lookup_ok addr topic c h p =
      let (r, k, t) = lookup_topic_ok addr topic c h p in
      (
        broker_address r,
        ap (λ x. x.0) (handle_lookup_lem addr topic c) ∙ ap outcome k ∙ ap (λ y. answer y r) t,
      )

  pub get_this-Returns :
      {A : Type 0} (f : TopicProducer E → A) → Returns IsPlain IsPlain (get_this f)
  unfolding get_this
  get_this-Returns f = Returns-gets _

  pub use_address-Returns :
      (addr : BrokerAddress) → Returns IsPlain IsPlain (use_address {E = E} addr)
  unfolding use_address set_this modify
  use_address-Returns addr = plain-Returns _ (λ s p. (tt, refl)) (use_address-Evolves addr)

  pub found-Returns :
      (url topic : String)
      → Accepts E
      → Returns IsPlain IsPlain (on_client (handle_lookup url topic))
  unfolding on_client zoom
  found-Returns url topic h =
      plain-Returns (on_client (handle_lookup url topic))
        (λ s p. handle_lookup_ok url topic s.client h p.token_supplier)
        (on_client-Evolves _ (handle_lookup-Grows url topic))

  pub lookup_new_broker-Returns : Accepts E → Returns IsPlain IsPlain lookup_new_broker
  unfolding lookup_new_broker
  lookup_new_broker-Returns h = Returns-bind _ _ (get_this-Returns λ p. p) λ this.
      Returns-catch _ _
        (Returns-bind _ _ (found-Returns this.connect_url this.topic h) use_address-Returns)
