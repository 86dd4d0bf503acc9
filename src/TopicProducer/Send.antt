-- ===== src/TopicProducer/Send.antt =====
-- `TopicProducer.send`: one message to the broker.
pub mod Numbers
use danube_py.Prelude.{ℕ, String, Option, none, some, List, []}
use danube_py.Errors.{unrecoverable}
use danube_py.Exec.{Exec, pure, raise, state, ◌>>=◌}
use danube_py.Env.{Env}
use danube_py.Env.Api.{Bytes, MsgId, StreamMessage}
use danube_py.Client.{Client, outside}
use danube_py.TopicProducer.{
  TopicProducer, Session, on_client, get_this, next_request_id, call_metadata,
}

-- `attributes if attributes is not None else {}`
abbrev pub or_empty : Option (List (String × String)) → List (String × String)
or_empty none = []
or_empty (some attributes) = attributes

module _ {E : Env} where
  abbrev pub message :
      TopicProducer E
      → ℕ
      → ℕ
      → Bytes
      → Option (List (String × String))
      → Option String
      → StreamMessage
  message p request_id publish_time payload attributes routing_key = record {
    request_id = request_id;
    msg_id = record {
      producer_id = p.producer_id;
      topic_name = p.topic;
      broker_addr = p.broker_addr;
      topic_offset = 0;
    };
    payload = payload;
    publish_time = publish_time;
    producer_name = p.producer_name;
    subscription_name = "";
    attributes = or_empty attributes;
    schema_id = p.schema_id;
    schema_version = p.schema_version;
    routing_key = routing_key;
  }

  unfoldable pub send_on :
      E.Channel → Bytes → Option (List (String × String)) → Option String → Exec (Session E) ℕ
  unfolding ◌>>=◌ pure state on_client outside get_this next_request_id call_metadata
  send_on channel payload attributes routing_key = do
    publish_time ← on_client (outside (state E.now_ms))
    this ← get_this λ p. p
    request_id ← next_request_id
    metadata ← call_metadata
    resp ← on_client (
        outside (
          E.send_message channel
            (message this request_id publish_time payload attributes routing_key) metadata))
    pure resp.request_id

  abbrev pub send_by :
      Option E.Channel
      → Bytes
      → Option (List (String × String))
      → Option String
      → Exec (Session E) ℕ
  send_by none payload attributes routing_key =
      raise (unrecoverable "send: producer is not connected")
  send_by (some channel) payload attributes routing_key =
      send_on channel payload attributes routing_key

  unfoldable pub send : Bytes → Option (List (String × String)) → Option String → Exec (Session E) ℕ
  unfolding ◌>>=◌ raise get_this send_on
  send payload attributes routing_key =
      (get_this λ p. p.stub) >>= λ stub. send_by stub payload attributes routing_key
