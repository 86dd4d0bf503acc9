-- ===== src/Producer/Send/Loop.antt =====
-- An attempt to send on a topic producer that is not connected.
use danube_py.Prelude.{
  ℕ, zero, suc, ◌<◌, String, pos, Option, none, some, List, [], ◌∷◌, length, get_elem?, set, lt→ltb,
  ◌≡◌, refl, ap, ◌∙◌,
}
use danube_py.Errors.{err, unrecoverable}
use danube_py.Env.{Env}
use danube_py.Env.Api.{Bytes}
use danube_py.TopicProducer.{TopicProducer, Session}
use danube_py.TopicProducer.Send
use danube_py.Producer.{Producer, Work, on_producer, on_item, item?, place?, on_found, put_session}

set_get : {A : Type 0} (xs : List A) (i : ℕ) (x : A) → get_elem? xs i ≡ some x → set xs i x ≡ xs
set_get [] i x h = refl
set_get (y ∷ xs) zero x h = cc
set_get (y ∷ xs) (suc i) x h = ap (λ r. y ∷ r) (set_get xs i x h)

module _ {E : Env} where
  pub item_found :
      (p : Producer E) (i : ℕ) (tp : TopicProducer E)
      → i < length p.producers
      → get_elem? p.producers i ≡ some tp
      → item? p (pos i) ≡ some (i, tp)
  item_found p i tp h found = rw (item?, place?, lt→ltb i (length p.producers) h, found) refl

  not_connected_session :
      (payload : Bytes) (attributes : Option (List (String × String))) (routing_key : Option String)
      (s : Session E)
      → s.this.stub ≡ none
      → Send.send payload attributes routing_key s
        ≡ (err (unrecoverable "send: producer is not connected"), s)
  unfolding Send.send
  not_connected_session payload attributes routing_key s cold = rw cold refl

  pub not_connected :
      (i : ℕ) (payload : Bytes) (attributes : Option (List (String × String)))
      (routing_key : Option String) (s : Work E) (tp : TopicProducer E)
      → i < length s.this.producers
      → get_elem? s.this.producers i ≡ some tp
      → tp.stub ≡ none
      → on_producer (pos i) (Send.send payload attributes routing_key) s
        ≡ (err (unrecoverable "send: producer is not connected"), s)
  unfolding on_producer on_item
  not_connected i payload attributes routing_key s tp h found cold =
      let call = Send.send payload attributes routing_key in
      let here : Session E = record { this = tp; client = s.client } in
      ap (λ o. on_found o call s) (item_found s.this i tp h found)
      ∙ ap (λ x. (x.0, put_session i x.1 s))
          (not_connected_session payload attributes routing_key here cold)
      ∙ ap
          (λ tps. (
            err (unrecoverable "send: producer is not connected"),
            record s { this = record (s.this) { producers = tps } },
          ))
          (set_get s.this.producers i tp found)
