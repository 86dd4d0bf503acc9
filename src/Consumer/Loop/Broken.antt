-- ===== src/Consumer/Loop/Broken.antt =====
-- What the receive loop does when its stream breaks.
use danube_py.Prelude.{ℕ, zero, suc, ◌+◌, false, none, some, get_or, ◌≡◌, refl, ◌∙◌, ap, arith}
use danube_py.Errors.{Error, ok, err}
use danube_py.Exec.{pure}
use danube_py.Exec.Inversion.{bind_at}
use danube_py.Env.{Env, Metadata}
use danube_py.Client.{outside, is_set}
use danube_py.Auth.{auth_metadata}
use danube_py.Auth.Token.{attach_token_static}
use danube_py.Retry.{insert_proxy_header}
use danube_py.TopicConsumer.Receive
use danube_py.Consumer.Loop.Quiet.{next_phase}
use danube_py.Retry.{RetryManager}
use danube_py.TopicConsumer
use danube_py.Consumer.{Phase, opening, reading, Feed}
use danube_py.Consumer.Loop.{
  on_consumer, event_is_set, open_stream, after_stream, arrived, next_message, receive_step,
}

module _ {E : Env} where
  abbrev pub in_world : Feed E → E.World → Feed E
  in_world s w = record s { client = record (s.client) { world = w } }

  next_message_broken :
      (stream : E.Stream) (s : Feed E) (e : Error) (w : E.World)
      → E.next_message stream s.client.world ≡ (err e, w)
      → next_message stream s ≡ (ok none, in_world s w)
  unfolding next_message on_consumer TopicConsumer.on_client outside pure
  next_message_broken stream s e w broken = rw broken refl

  arrived_none :
      (shutdown : ℕ) (stream : E.Stream) (s : Feed E)
      → get_or s.client.events shutdown false ≡ false
      → get_or s.client.events s.this.stop_event false ≡ false
      → arrived shutdown stream none s ≡ (ok (opening 0), s)
  unfolding arrived after_stream event_is_set
  arrived_none shutdown stream s up calm = rw (up, calm) refl

  -- The loop leaves a stream that raises.
  reading_breaks :
      (m : RetryManager) (shutdown : ℕ) (stream : E.Stream) (s : Feed E) (e : Error) (w : E.World)
      → E.next_message stream s.client.world ≡ (err e, w)
      → get_or s.client.events shutdown false ≡ false
      → get_or s.client.events s.this.stop_event false ≡ false
      → receive_step m shutdown (reading stream) s ≡ (ok (opening 0), in_world s w)
  unfolding receive_step
  reading_breaks m shutdown stream s e w broken up running =
      bind_at (next_message stream) (arrived shutdown stream) s
        (next_message_broken stream s e w broken)
      ∙ arrived_none shutdown stream (in_world s w) up running

-- Every stream of the broker raises when it is read.
pub record Breaks (E : Env) : Type 0 where
  pub breaks :
      (stream : E.Stream) (w : E.World) → (e : Error) × ((E.next_message stream w).0 ≡ err e)

module _ (E : Env) where
  -- What the loop does outside: it asks for a stream, with the request's number, and reads it.
  abbrev pub request : E.Channel → Metadata → ℕ → ℕ → E.World → E.Stream × E.World
  request ch metadata consumer_id id w =
      E.receive_messages ch (record { request_id = id; consumer_id = consumer_id }) metadata w

  abbrev pub reconnect : E.Channel → Metadata → ℕ → ℕ → E.World → E.World
  reconnect ch metadata consumer_id id w =
      let (stream, w') = request ch metadata consumer_id id w in (E.next_message stream w').1

  abbrev pub reconnects : ℕ → E.Channel → Metadata → ℕ → ℕ → E.World → E.World
  reconnects zero ch metadata consumer_id id w = w
  reconnects (suc n) ch metadata consumer_id id w =
      reconnects n ch metadata consumer_id (id + 1) (reconnect ch metadata consumer_id id w)

module _ {E : Env} where
  abbrev pub metadata_of : Feed E → Metadata
  metadata_of s =
      let o = s.client.manager.options in
      insert_proxy_header (auth_metadata o.token o.internal_broker) s.this.broker_addr s.this.proxy

  abbrev pub numbered : Feed E → ℕ → E.World → Feed E
  numbered s id w = record s {
    this = record (s.this) { request_id = id };
    client = record (s.client) { world = w };
  }

  -- Two steps of the loop, `n` times.
  abbrev pub twice : RetryManager → ℕ → Phase E × Feed E → Phase E × Feed E
  twice m shutdown (p, s) =
      let (r, t) = receive_step m shutdown p s in
      let q = next_phase r p in let (r', u) = receive_step m shutdown q t in (next_phase r' q, u)

  abbrev pub rounds : RetryManager → ℕ → ℕ → Phase E × Feed E → Phase E × Feed E
  rounds m shutdown zero x = x
  rounds m shutdown (suc n) x = rounds m shutdown n (twice m shutdown x)

  opens :
      (m : RetryManager) (shutdown : ℕ) (ch : E.Channel) (s : Feed E)
      → s.this.stub ≡ some ch
      → s.client.manager.options.token_supplier ≡ none
      → get_or s.client.events shutdown false ≡ false
      → let (stream, w) =
          request E ch (metadata_of s) s.this.consumer_id s.this.request_id s.client.world in
        receive_step m shutdown (opening 0) s
        ≡ (ok (reading stream), numbered s (s.this.request_id + 1) w)
  unfolding receive_step open_stream event_is_set on_consumer Receive.receive
      TopicConsumer.on_client TopicConsumer.get_this TopicConsumer.next_request_id
      TopicConsumer.call_metadata outside is_set
  opens m shutdown ch s stub plain up =
      rw (up, stub, attach_token_static s.this.connect_url s.client plain) refl

  reopens :
      (m : RetryManager) (shutdown : ℕ) (ch : E.Channel) (s : Feed E)
      → Breaks E
      → s.this.stub ≡ some ch
      → s.client.manager.options.token_supplier ≡ none
      → get_or s.client.events shutdown false ≡ false
      → get_or s.client.events s.this.stop_event false ≡ false
      → let id = s.this.request_id in
        twice m shutdown (opening 0, s) ≡ (
          opening 0,
          numbered s (id + 1) (reconnect E ch (metadata_of s) s.this.consumer_id id s.client.world),
        )
  reopens m shutdown ch s law stub plain up calm =
      let id = s.this.request_id in
      let (stream, w) = request E ch (metadata_of s) s.this.consumer_id id s.client.world in
      let (e, broken) = law.breaks stream w in
      let w' = (E.next_message stream w).1 in
      let t = numbered s (id + 1) w in
      ap
        (λ x.
          let q = next_phase x.0 (opening 0) in
          let (r, u) = receive_step m shutdown q x.1 in (next_phase r q, u))
        (opens m shutdown ch s stub plain up)
      ∙ ap (λ x. (next_phase x.0 (reading stream), x.1))
          (reading_breaks m shutdown stream t e w' (ap (λ r. (r, w')) broken) up calm)

  -- While every stream of the broker raises when it is read, which is how an unavailable broker shows,
  -- a receive loop that is connected, with no shutdown and no closed topic, and a client without a
  -- token supplier, asks for one stream after the other for ever: after any number n of rounds of two
  -- steps it is about to open the next, with no failed attempt counted. Outside it has asked for n
  -- streams and read each once, and done nothing else: no sleep and no lookup of another broker.
  pub broken_stream_reopens :
      (n : ℕ) (m : RetryManager) (shutdown : ℕ) (ch : E.Channel) (s : Feed E)
      → Breaks E
      → s.this.stub ≡ some ch
      → s.client.manager.options.token_supplier ≡ none
      → get_or s.client.events shutdown false ≡ false
      → get_or s.client.events s.this.stop_event false ≡ false
      → let id = s.this.request_id in
        rounds m shutdown n (opening 0, s) ≡ (
          opening 0,
          numbered s
              (id + n)
              (reconnects E n ch (metadata_of s) s.this.consumer_id id s.client.world),
        )
  broken_stream_reopens zero m shutdown ch s law stub plain up calm =
      ap (λ i. (opening 0, numbered s i s.client.world)) (omega arith)
  broken_stream_reopens (suc n) m shutdown ch s law stub plain up calm =
      let id = s.this.request_id in
      let t =
        numbered s (id + 1) (reconnect E ch (metadata_of s) s.this.consumer_id id s.client.world) in
      ap (rounds m shutdown n) (reopens m shutdown ch s law stub plain up calm)
      ∙ broken_stream_reopens n m shutdown ch t law stub plain up calm
      ∙ ap
          (λ i. (
            opening 0,
            numbered s i
                (reconnects E (suc n) ch (metadata_of s) s.this.consumer_id id s.client.world),
          ))
          (omega arith)
