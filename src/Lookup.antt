-- ===== src/Lookup.antt =====
-- danube/lookup_service.py: which broker serves a topic, and the partitions of a topic.
pub mod Outcome
use danube_py.Prelude.{ℕ, String, List}
use danube_py.Errors.{lookup_error}
use danube_py.Exec.{Exec, pure, raise, ◌>>=◌}
use danube_py.Env.{Env}
use danube_py.Env.Api.{
  TopicLookupRequest, TopicLookupResponse, LookupType, redirect, connect, failed, unrecognized,
}
use danube_py.Client.{BrokerAddress, Client, outside, next_lookup_id}
use danube_py.Connection.{get_connection}
use danube_py.Auth.{attach_token_if_needed}

abbrev pub broker_address : TopicLookupResponse → BrokerAddress
broker_address r = record {
  connect_url = r.connect_url;
  broker_url = r.broker_url;
  proxy = r.proxy;
}

module _ {E : Env} where
  unfoldable pub lookup_topic : String → String → Exec (Client E) TopicLookupResponse
  unfolding pure ◌>>=◌ get_connection outside attach_token_if_needed next_lookup_id
  lookup_topic addr topic = do
    conn ← get_connection addr addr
    metadata ← attach_token_if_needed addr
    id ← next_lookup_id
    outside (E.topic_lookup conn.channel (record { request_id = id; topic = topic }) metadata)

  unfoldable pub topic_partitions : String → String → Exec (Client E) (List String)
  unfolding pure ◌>>=◌ get_connection outside attach_token_if_needed next_lookup_id
  topic_partitions addr topic = do
    conn ← get_connection addr addr
    metadata ← attach_token_if_needed addr
    id ← next_lookup_id
    response ←
        outside
          (E.topic_partitions conn.channel (record { request_id = id; topic = topic }) metadata)
    pure response.partitions

  -- The branches of `handle_lookup` on the type of the response.
  unfoldable pub address_of : LookupType → TopicLookupResponse → Exec (Client E) BrokerAddress
  unfolding pure raise
  address_of redirect r = pure (broker_address r)
  address_of connect r = pure (broker_address r)
  address_of failed r =
      raise (lookup_error "topic lookup failed: topic may not exist or cluster is unavailable")
  address_of (unrecognized _) r = raise (lookup_error "unknown lookup type")

  unfoldable pub handle_lookup : String → String → Exec (Client E) BrokerAddress
  unfolding ◌>>=◌ lookup_topic address_of
  handle_lookup addr topic = do
    response ← lookup_topic addr topic
    address_of response.response_type response
