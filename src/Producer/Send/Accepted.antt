-- ===== src/Producer/Send/Accepted.antt =====
-- A producer with a broker that accepts it and takes its messages.
use danube_py.Prelude.{
  ℕ, suc, ◌+◌, ◌%◌, ◌<◌, String, pos, none, Option, List, [], ◌∷◌, All, All-get_elem?, All-set,
  get_elem?_of_lt, ◌≡◌, refl, sym, ap, ◌∙◌, subst, arith,
}
use native.Mathlib.Nat.{mod-lt}
use danube_py.Errors.{Result, ok}
use danube_py.Exec.{Exec, pure, zoom, state, ◌>>=◌}
use danube_py.Exec.Inversion.{catch_ok}
use danube_py.Env.{Env, Metadata}
use danube_py.Env.Api.{Bytes, StreamMessage, MessageResponse}
use danube_py.Client.{outside}
use danube_py.Growth.Session.Calls.{send-Evolves}
use danube_py.TopicProducer
use danube_py.TopicProducer.{TopicProducer, Session}
use danube_py.TopicProducer.Accepted.{Accepts, IsPlain, call_metadata_ok}
use danube_py.TopicProducer.Send
use danube_py.TopicProducer.Send.{message}
use danube_py.TopicProducer.Send.Numbers.{send_this}
use danube_py.Producer.{Work, on_producer, put_session}
use danube_py.Producer.Create.{create_producer}
use danube_py.Producer.Create.Partitions.{IsReady, create_producer-IsReady}
use danube_py.Producer.Create.Accepted.{HasNoSupplier, IsUp, create_producer_ok}
use danube_py.Producer.Send.{send, send_loop}
use danube_py.Producer.Send.Forever.{on_producer_at}
use danube_py.Producer.Send.Routing.{
  retry_manager, routed_to, rerouted, send_next_partition, after_sends,
}

-- The broker takes every message.
pub record Takes (E : Env) : Type 0 where
  pub takes :
      (ch : E.Channel) (msg : StreamMessage) (md : Metadata) (w : E.World)
      → (r : MessageResponse) × ((E.send_message ch msg md w).0 ≡ ok r)

module _ {E : Env} where
  posted_taken :
      (ch : E.Channel) (msg : StreamMessage) (s : Session E)
      → Takes E
      → IsPlain s
      → (id : ℕ) × ((TopicProducer.call_metadata >>= λ metadata.
              TopicProducer.on_client (outside (E.send_message ch msg metadata)) >>= λ resp.
              pure resp.request_id)
            s).0
          ≡ ok id
  unfolding ◌>>=◌ TopicProducer.on_client outside zoom pure
  posted_taken ch msg s h p =
      let (md, k) = call_metadata_ok s p in
      let (r, f) = h.takes ch msg md s.client.world in (r.request_id, rw (k, f) refl)

  send_on_taken :
      (ch : E.Channel) (payload : Bytes) (attributes : Option (List (String × String)))
      (routing_key : Option String) (s : Session E)
      → Takes E
      → IsPlain s
      → (id : ℕ) × ((Send.send_on ch payload attributes routing_key s).0 ≡ ok id)
  unfolding Send.send_on TopicProducer.get_this TopicProducer.next_request_id
      TopicProducer.on_client outside state ◌>>=◌
  send_on_taken ch payload attributes routing_key s h p =
      let (now, w) = E.now_ms s.client.world in
      let t : Session E = record {
        this = record (s.this) { request_id = s.this.request_id + 1 };
        client = record (s.client) { world = w };
      } in
      let msg = message s.this s.this.request_id now payload attributes routing_key in
      posted_taken ch msg t h
        (record { schema_ref = p.schema_ref; token_supplier = p.token_supplier })

  -- A message of a connected topic producer is taken, and it stays connected.
  pub send_taken :
      (payload : Bytes) (attributes : Option (List (String × String))) (routing_key : Option String)
      (s : Session E)
      → Takes E
      → IsUp s.this
      → HasNoSupplier s.client
      → let (r, t) = Send.send payload attributes routing_key s in
        ((id : ℕ) × (r ≡ ok id)) × IsUp t.this × HasNoSupplier t.client
  unfolding Send.send TopicProducer.get_this
  send_taken payload attributes routing_key s h u p =
      let (id, e) =
        send_on_taken u.channel payload attributes routing_key s h
          (record { schema_ref = u.schema_ref; token_supplier = p }) in
      let same = send_this payload attributes routing_key s u.channel u.stub in
      let g = ((send-Evolves payload attributes routing_key).at s).client in
      (
        (id, ap (λ o. (Send.send_by o payload attributes routing_key s).0) u.stub ∙ e),
        record {
          schema_ref = ap (λ q. q.schema_ref) same ∙ u.schema_ref;
          channel = u.channel;
          stub = ap (λ q. q.stub) same ∙ u.stub;
        },
        ap (λ o. o.token_supplier) g.options ∙ p,
      )

  -- A producer that `create` has left ready, with all topic producers connected.
  record IsLive (n last : ℕ) (s : Work E) : Type 0 where
    ready : IsReady n last s.this
    up : All IsUp s.this.producers
    no_supplier : HasNoSupplier s.client

  -- How a call ends that takes a message.
  abbrev HasTaken : Result ℕ × Work E → Type 0
  HasTaken x = ((id : ℕ) × (x.0 ≡ ok id)) × All IsUp x.1.this.producers × HasNoSupplier x.1.client

  -- The first attempt on a partition succeeds.
  send_loop_taken :
      (fuel n last i : ℕ) (payload : Bytes) (attributes : Option (List (String × String)))
      (routing_key : Option String) (s : Work E)
      → Takes E
      → IsLive n last s
      → i < suc n
      → HasTaken
          (send_loop (retry_manager s.this) (pos i) payload attributes routing_key (suc fuel) 0 s)
  unfolding send_loop
  send_loop_taken fuel n last i payload attributes routing_key s h l k =
      let call : Exec (Session E) ℕ = Send.send payload attributes routing_key in
      let (tp, found) = get_elem?_of_lt s.this.producers i (omega (arith, l.ready.count)) in
      let t : Session E = record { this = tp; client = s.client } in
      let u = All-get_elem? IsUp s.this.producers i l.up found in
      let (answer, up, rest) = send_taken payload attributes routing_key t h u l.no_supplier in
      let at = on_producer_at i call s (record {
        tp = tp;
        found = found;
        plain = record { schema_ref = u.schema_ref; token_supplier = l.no_supplier };
      }) in
      let ended = put_session i (call t).1 s in
      subst HasTaken
        (sym (catch_ok (on_producer (pos i) call) _ s (at ∙ ap (λ r. (r, ended)) answer.1)))
        ((answer.0, refl), All-set IsUp s.this.producers i (call t).1.this l.up up, rest)

  send-IsLive :
      (fuel n last : ℕ) (payload : Bytes) (attributes : Option (List (String × String)))
      (s : Work E)
      → Takes E
      → IsLive n last s
      → let (r, t) = send (suc fuel) payload attributes s in
        ((id : ℕ) × (r ≡ ok id)) × IsLive n ((last + 1) % suc n) t
  send-IsLive fuel n last payload attributes s h l =
      let next = (last + 1) % suc n in
      let fits = mod-lt (last + 1) (omega arith) in
      let (reached, ready) = send_next_partition (suc fuel) n last payload attributes s l.ready in
      let routed : IsLive n next (routed_to n next s) = record {
        ready = rerouted n last next s l.ready fits;
        up = l.up;
        no_supplier = l.no_supplier;
      } in
      let (answer, up, rest) = subst HasTaken (sym reached) (
        send_loop_taken fuel n next next payload attributes none (routed_to n next s) h routed
          fits) in
      (answer, record { ready = ready; up = up; no_supplier = rest })

  after_sends-IsLive :
      (fuel n last : ℕ) (messages : List (Bytes × Option (List (String × String)))) (s : Work E)
      → Takes E
      → IsLive n last s
      → (next : ℕ) × IsLive n next (after_sends (suc fuel) messages s)
  after_sends-IsLive fuel n last [] s h l = (last, l)
  after_sends-IsLive fuel n last ((payload, attributes) ∷ rest) s h l =
      after_sends-IsLive fuel n ((last + 1) % suc n) rest (send (suc fuel) payload attributes s).1 h
        (send-IsLive fuel n last payload attributes s h l).1

  -- With a broker that finds every topic, registers every producer and takes every message, `create` of
  -- a producer with partitions and without a schema returns, for a client without a token supplier;
  -- and every message that is sent afterwards, after any number of others, is taken at the first
  -- attempt: `send` returns.
  pub create_then_send :
      (n : ℕ) (messages : List (Bytes × Option (List (String × String)))) (payload : Bytes)
      (attributes : Option (List (String × String))) (s : Work E)
      → Accepts E
      → Takes E
      → s.this.partitions ≡ pos (suc n)
      → s.this.schema_ref ≡ none
      → HasNoSupplier s.client
      → let (r, t) = create_producer s in
        (r ≡ ok tt)
        × ((id : ℕ) × ((send 1 payload attributes (after_sends 1 messages t)).0 ≡ ok id))
  create_then_send n messages payload attributes s h k many plain p =
      let (e, up, no_supplier) = create_producer_ok s n h many plain p in
      let (next, l) = after_sends-IsLive 0 n n messages (create_producer s).1 k (record {
        ready = (create_producer-IsReady s n many e).0;
        up = up;
        no_supplier = no_supplier;
      }) in
      (
        e,
        (send-IsLive 0 n next payload attributes (after_sends 1 messages (create_producer s).1) k
            l).0,
      )
