-- ===== src/TopicConsumer/Receive.antt =====
-- `TopicConsumer.receive`, `send_ack` and `send_nack`.
use danube_py.Prelude.{ℕ, String, Option}
use danube_py.Errors.{unrecoverable}
use danube_py.Exec.{Exec, pure, raise, state, or_raise, ◌>>=◌}
use danube_py.Env.{Env}
use danube_py.Env.Api.{MsgId, AckResponse, NackResponse}
use danube_py.Client.{outside}
use danube_py.TopicConsumer.{Subscriber, on_client, get_this, next_request_id, call_metadata}

module _ {E : Env} where
  unfoldable pub receive : Exec (Subscriber E) E.Stream
  unfolding ◌>>=◌ pure raise state on_client outside get_this next_request_id call_metadata
  receive = do
    this ← get_this λ c. c
    channel ← or_raise this.stub (unrecoverable "receive: consumer is not connected")
    request_id ← next_request_id
    metadata ← call_metadata
    on_client (
        outside (
          state (
            E.receive_messages channel
              (record { request_id = request_id; consumer_id = this.consumer_id }) metadata)))

  unfoldable pub send_ack : ℕ → MsgId → String → Exec (Subscriber E) AckResponse
  unfolding ◌>>=◌ pure raise on_client outside get_this call_metadata
  send_ack request_id msg_id subscription_name = do
    this ← get_this λ c. c
    channel ← or_raise this.stub (unrecoverable "send_ack: consumer is not connected")
    metadata ← call_metadata
    on_client (
        outside (
          E.ack channel
            (record {
              request_id = request_id;
              msg_id = msg_id;
              subscription_name = subscription_name;
            })
            metadata))

  unfoldable pub send_nack :
      ℕ → MsgId → String → Option ℕ → Option String → Exec (Subscriber E) NackResponse
  unfolding ◌>>=◌ pure raise on_client outside get_this call_metadata
  send_nack request_id msg_id subscription_name delay_ms reason = do
    this ← get_this λ c. c
    channel ← or_raise this.stub (unrecoverable "send_nack: consumer is not connected")
    metadata ← call_metadata
    on_client (
        outside (
          E.nack channel
            (record {
              request_id = request_id;
              msg_id = msg_id;
              subscription_name = subscription_name;
              delay_ms = delay_ms;
              reason = reason;
            })
            metadata))
