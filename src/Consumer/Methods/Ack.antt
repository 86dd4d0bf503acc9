-- ===== src/Consumer/Methods/Ack.antt =====
-- Where acknowledgements go.
use danube_py.Prelude.{
  ℕ, String, Option-cases, none, some, inl, inr, ◌⊎◌, get_elem?, ◌≡◌, refl, ap, ◌∙◌,
}
use danube_py.Errors.{ok}
use danube_py.Exec.{pure, gets, ◌>>=◌, ◌>>◌}
use danube_py.Env.{Env}
use danube_py.Env.Api.{StreamMessage}
use danube_py.TopicConsumer.{TopicConsumer}
use danube_py.TopicConsumer.Receive.{send_ack}
use danube_py.Consumer.{Group}
use danube_py.Consumer.Dict.{find_entry}
use danube_py.Consumer.Methods.{on_member, member?, ack, ack_by}
use danube_py.Consumer.Methods.Keyed.{IsKeyed}

module _ {E : Env} where
  ack_unfolded :
      (message : StreamMessage) (g : Group E)
      → ack message g ≡ ack_by message g.this.subscription (member? message.msg_id.topic_name g) g
  unfolding ack gets ◌>>=◌
  ack_unfolded message g = refl

  member_missing :
      (topic : String) (g : Group E)
      → find_entry topic g.this.consumers ≡ none
      → member? topic g ≡ none
  member_missing topic g missing = rw (member?, missing) refl

  member_found :
      (topic : String) (g : Group E) (i : ℕ) (tc : TopicConsumer E)
      → find_entry topic g.this.consumers ≡ some i
      → get_elem? g.topic_consumers i ≡ some tc
      → member? topic g ≡ some (i, tc)
  member_found topic g i tc found at = rw (member?, found, at) refl

  -- An acknowledgement goes to the topic consumer of the message's own topic, with the message's ids
  -- and the consumer's subscription; for a topic that the consumer does not have nothing happens.
  pub ack_reaches_topic :
      (message : StreamMessage) (g : Group E)
      → IsKeyed g
      → let topic = message.msg_id.topic_name in
        ((find_entry topic g.this.consumers ≡ none) × (ack message g ≡ (ok tt, g)))
        ⊎ ((i : ℕ) × (tc : TopicConsumer E) × (get_elem? g.topic_consumers i ≡ some tc)
            × (tc.topic_name ≡ topic)
            × (ack message g
                ≡ (on_member i tc (send_ack message.request_id message.msg_id g.this.subscription)
                      >> pure tt)
                    g))
  unfolding pure
  ack_reaches_topic message g k =
      let topic = message.msg_id.topic_name in
      elim (Option-cases (find_entry topic g.this.consumers)) [
        | inl missing ↦ inl (
          missing,
          ack_unfolded message g
              ∙ ap (λ m. ack_by message g.this.subscription m g) (member_missing topic g missing),
        )
        | inr (i, found) ↦
            let (tc, at, name) = k.keyed topic i found in
            inr (
              i,
              tc,
              at,
              name,
              ack_unfolded message g
                  ∙ ap (λ m. ack_by message g.this.subscription m g)
                      (member_found topic g i tc found at),
            )
      ]
