-- ===== src/Growth/Subscriber/Ending.antt =====
-- The acknowledgements and `stop` of a topic consumer.
use danube_py.Prelude.{ℕ, String, Option, none, some}
use danube_py.Exec.Steps.{Steps}
use danube_py.Env.{Env}
use danube_py.Env.Api.{MsgId}
use danube_py.TopicConsumer.Subscribe.{cancel_health, stop}
use danube_py.TopicConsumer.Receive.{send_ack, send_nack}
use danube_py.Growth.Subscriber.{
  Evolves, subscriber_rules, call_metadata-Evolves, set_health_task-Evolves,
}

module _ {E : Env} where
  pub send_ack-Evolves :
      (request_id : ℕ) (msg_id : MsgId) (subscription : String)
      → Steps (Evolves {E = E}) (send_ack request_id msg_id subscription)
  unfolding send_ack
  send_ack-Evolves request_id msg_id subscription =
      search (subscriber_rules, call_metadata-Evolves) depth 9

  pub send_nack-Evolves :
      (request_id : ℕ) (msg_id : MsgId) (subscription : String) (delay_ms : Option ℕ)
      (reason : Option String)
      → Steps (Evolves {E = E}) (send_nack request_id msg_id subscription delay_ms reason)
  unfolding send_nack
  send_nack-Evolves request_id msg_id subscription delay_ms reason =
      search (subscriber_rules, call_metadata-Evolves) depth 9

  cancel_health-Evolves : (task : Option ℕ) → Steps (Evolves {E = E}) (cancel_health task)
  cancel_health-Evolves none = search subscriber_rules
  cancel_health-Evolves (some task) = search (subscriber_rules, set_health_task-Evolves)

  pub stop-Evolves : Steps (Evolves {E = E}) stop
  unfolding stop
  stop-Evolves = search (subscriber_rules, cancel_health-Evolves) depth 7
