-- ===== src/Producer/Send/Refused.antt =====
-- A topic producer whose messages are refused, though the broker accepts the producer.
use danube_py.Prelude.{
  ◌+◌, String, Option-cases, true, inl, inr, Option, List, ◌≡◌, refl, ap, ◌∙◌, ◌⊎◌,
}
use danube_py.Errors.{Error, err, is_unrecoverable, unrecoverable}
use danube_py.Exec.{pure, zoom, state, ◌>>=◌}
use danube_py.Exec.Returns.{Returns, Returns-catch, Returns-bind}
use danube_py.Env.{Env, Metadata}
use danube_py.Env.Api.{Bytes, StreamMessage}
use danube_py.Client.{outside}
use danube_py.Retry.{is_retryable}
use danube_py.TopicProducer
use danube_py.TopicProducer.{TopicProducer, Session, use_address}
use danube_py.TopicProducer.Create.{create}
use danube_py.TopicProducer.Accepted.{
  Accepts, IsPlain, call_metadata_ok, get_this-Returns, use_address-Returns, found-Returns,
}
use danube_py.TopicProducer.Create.Accepted.{create-Returns}
use danube_py.TopicProducer.Send
use danube_py.TopicProducer.Send.{message}
use danube_py.Producer.Send.{relocate}

-- The broker refuses every message for the time being.
pub record Refuses (E : Env) : Type 0 where
  pub refuses :
      (ch : E.Channel) (msg : StreamMessage) (md : Metadata) (w : E.World)
      → (e : Error) × ((E.send_message ch msg md w).0 ≡ err e) × (is_retryable e ≡ true)

-- An error that the loop does not pass on.
abbrev pub IsCaught : Error → Type 0
IsCaught e = (is_unrecoverable e ≡ true) ⊎ (is_retryable e ≡ true)

module _ {E : Env} where
  posted_refused :
      (ch : E.Channel) (msg : StreamMessage) (s : Session E)
      → Refuses E
      → IsPlain s
      → (e : Error) × (((TopicProducer.call_metadata >>= λ metadata.
              TopicProducer.on_client (outside (E.send_message ch msg metadata)) >>= λ resp.
              pure resp.request_id)
            s).0
          ≡ err e)
        × (is_retryable e ≡ true)
  unfolding ◌>>=◌ TopicProducer.on_client outside zoom
  posted_refused ch msg s h p =
      let (md, k) = call_metadata_ok s p in
      let (e, f, again) = h.refuses ch msg md s.client.world in (e, rw (k, f) refl, again)

  send_on_refused :
      (ch : E.Channel) (payload : Bytes) (attributes : Option (List (String × String)))
      (routing_key : Option String) (s : Session E)
      → Refuses E
      → IsPlain s
      → (e : Error) × ((Send.send_on ch payload attributes routing_key s).0 ≡ err e)
        × (is_retryable e ≡ true)
  unfolding Send.send_on TopicProducer.get_this TopicProducer.next_request_id
      TopicProducer.on_client outside state ◌>>=◌
  send_on_refused ch payload attributes routing_key s h p =
      let (now, w) = E.now_ms s.client.world in
      let t : Session E = record {
        this = record (s.this) { request_id = s.this.request_id + 1 };
        client = record (s.client) { world = w };
      } in
      let msg = message s.this s.this.request_id now payload attributes routing_key in
      posted_refused ch msg t h
        (record { schema_ref = p.schema_ref; token_supplier = p.token_supplier })

  pub send_refused :
      (payload : Bytes) (attributes : Option (List (String × String))) (routing_key : Option String)
      (s : Session E)
      → Refuses E
      → IsPlain s
      → (e : Error) × ((Send.send payload attributes routing_key s).0 ≡ err e) × IsCaught e
  unfolding Send.send TopicProducer.get_this
  send_refused payload attributes routing_key s h p = elim (Option-cases s.this.stub) [
    | inl cold ↦ (unrecoverable "send: producer is not connected", rw cold refl, inl refl)
    | inr (ch, e) ↦
        let (x, f, again) = send_on_refused ch payload attributes routing_key s h p in
        (x, ap (λ o. (Send.send_by o payload attributes routing_key s).0) e ∙ f, inr again)
  ]

  pub recreated-Returns : Accepts E → Returns IsPlain IsPlain (create {E = E})
  recreated-Returns h = record {
    at = λ s p. let (a, e, c) = (create-Returns h).at s p in (a, e, c.plain);
  }

  pub relocate-Returns : (e : Error) → Accepts E → Returns IsPlain IsPlain (relocate {E = E} e)
  unfolding relocate
  relocate-Returns e h = Returns-bind _ _ (get_this-Returns λ p. p) λ this.
      Returns-bind _ _ (Returns-catch _ _ (found-Returns this.connect_url this.topic h))
        λ addr. Returns-bind _ _ (use_address-Returns addr) λ _. recreated-Returns h
