-- ===== src/TopicProducer/Send/Numbers.antt =====
-- What `TopicProducer.send` leaves of the producer: one request number more is given out.
use danube_py.Prelude.{◌+◌, String, Option, some, List, ◌≡◌, refl, ap, ◌∙◌}
use danube_py.Exec.{Exec, ◌>>=◌, state, pure}
use danube_py.Exec.Steps.{IsPreorder, Steps, Steps-gets, steps_rules}
use danube_py.Env.{Env}
use danube_py.Env.Api.{Bytes, StreamMessage}
use danube_py.Client.{Client, outside}
use danube_py.TopicProducer.{
  TopicProducer, Session, on_client, get_this, next_request_id, call_metadata,
}
use danube_py.TopicProducer.Send.{message, send_on, send_by, send}

module _ {E : Env} where
  -- The producer is the one that it was.
  record Kept (s t : Session E) : Type 0 where
    pub this : t.this ≡ s.this

  Kept-preorder : IsPreorder Kept
  Kept-preorder = record {
    reflexive = λ s. record { this = refl };
    transitive = λ s t u f g. record { this = g.this ∙ f.this };
  }

  on_client-Kept : {A : Type 0} (m : Exec (Client E) A) → Steps Kept (on_client m)
  unfolding on_client
  on_client-Kept m = record { at = λ s. record { this = refl } }

  get_this-Kept : {A : Type 0} (f : TopicProducer E → A) → Steps Kept (get_this f)
  unfolding get_this
  get_this-Kept f = Steps-gets Kept-preorder _

ruleset kept_rules = (steps_rules, Kept-preorder, on_client-Kept, get_this-Kept)

module _ {E : Env} where
  call_metadata-Kept : Steps (Kept {E = E}) call_metadata
  unfolding call_metadata
  call_metadata-Kept = search kept_rules depth 7

  -- The part of `send` behind the number.
  posted-Kept :
      (channel : E.Channel) (msg : StreamMessage)
      → Steps (Kept {E = E}) (
          call_metadata >>= λ metadata.
          on_client (outside (E.send_message channel msg metadata)) >>= λ resp.
          pure resp.request_id)
  posted-Kept channel msg = search (kept_rules, call_metadata-Kept) depth 7

  send_on_this :
      (channel : E.Channel) (payload : Bytes) (attributes : Option (List (String × String)))
      (routing_key : Option String) (s : Session E)
      → (send_on channel payload attributes routing_key s).1.this
        ≡ record (s.this) { request_id = s.this.request_id + 1 }
  unfolding send_on get_this next_request_id on_client outside state ◌>>=◌
  send_on_this channel payload attributes routing_key s =
      let (now, w) = E.now_ms s.client.world in
      let t : Session E = record {
        this = record (s.this) { request_id = s.this.request_id + 1 };
        client = record (s.client) { world = w };
      } in
      let msg = message s.this s.this.request_id now payload attributes routing_key in
      ((posted-Kept channel msg).at t).this

  -- A connected producer gives out exactly one request number for a message, and nothing else of it
  -- changes, whether the broker takes the message, refuses it or does not answer.
  pub send_this :
      (payload : Bytes) (attributes : Option (List (String × String))) (routing_key : Option String)
      (s : Session E) (channel : E.Channel)
      → s.this.stub ≡ some channel
      → (send payload attributes routing_key s).1.this
        ≡ record (s.this) { request_id = s.this.request_id + 1 }
  unfolding send get_this ◌>>=◌
  send_this payload attributes routing_key s channel warm =
      ap (λ stub. (send_by stub payload attributes routing_key s).1.this) warm
      ∙ send_on_this channel payload attributes routing_key s
