-- ===== src/Growth/Session/Calls.antt =====
-- The short calls of a topic producer, and `send`.
use danube_py.Prelude.{ℕ, String, Option, none, some, List, refl}
use danube_py.Exec.Steps.{Steps}
use danube_py.Env.{Env}
use danube_py.Env.Api.{
  Bytes, SchemaReference, VersionRef, unset, use_latest, pinned_version, min_version,
}
use danube_py.Client.{BrokerAddress}
use danube_py.TopicProducer.{set_this, connect, use_address, lookup_new_broker, call_metadata}
use danube_py.Registry.{SchemaInfo}
use danube_py.TopicProducer.Schema.{
  pinned, at_least, check_version, resolve_reference, resolve, resolve_schema_metadata,
}
use danube_py.TopicProducer.Send.{send_on, send_by, send}
use danube_py.Growth.Session.{Evolves, session_rules, set_this-Evolves}

module _ {E : Env} where
  pub set_stub-Evolves :
      (channel : E.Channel)
      → Steps (Evolves {E = E}) (set_this λ p. record p { stub = some channel })
  set_stub-Evolves channel = set_this-Evolves _ λ p. refl

  pub connect-Evolves : Steps (Evolves {E = E}) connect
  unfolding connect
  connect-Evolves = search (session_rules, set_stub-Evolves)

  pub use_address-Evolves : (addr : BrokerAddress) → Steps (Evolves {E = E}) (use_address addr)
  unfolding use_address
  use_address-Evolves addr = set_this-Evolves _ λ p. refl

  pub lookup_new_broker-Evolves : Steps (Evolves {E = E}) lookup_new_broker
  unfolding lookup_new_broker
  lookup_new_broker-Evolves = search (session_rules, use_address-Evolves) depth 7

  pub call_metadata-Evolves : Steps (Evolves {E = E}) call_metadata
  unfolding call_metadata
  call_metadata-Evolves = search session_rules

  pinned-Evolves :
      (ref : SchemaReference) (version : ℕ) (latest : SchemaInfo)
      → Steps (Evolves {E = E}) (pinned ref version latest)
  unfolding pinned
  pinned-Evolves ref version latest = search session_rules depth 7

  at_least-Evolves :
      (ref : SchemaReference) (version : ℕ) (latest : SchemaInfo)
      → Steps (Evolves {E = E}) (at_least ref version latest)
  unfolding at_least
  at_least-Evolves ref version latest = search session_rules

  check_version-Evolves :
      (ref : SchemaReference) (v : VersionRef) (latest : SchemaInfo)
      → Steps (Evolves {E = E}) (check_version ref v latest)
  unfolding check_version
  check_version-Evolves ref unset latest = search session_rules
  check_version-Evolves ref (use_latest b) latest = search session_rules
  check_version-Evolves ref (pinned_version v) latest = pinned-Evolves ref v latest
  check_version-Evolves ref (min_version v) latest = at_least-Evolves ref v latest

  resolve_reference-Evolves :
      (ref : SchemaReference) → Steps (Evolves {E = E}) (resolve_reference ref)
  unfolding resolve_reference
  resolve_reference-Evolves ref = search (session_rules, check_version-Evolves)

  resolve-Evolves : (ref : Option SchemaReference) → Steps (Evolves {E = E}) (resolve ref)
  resolve-Evolves none = search session_rules
  resolve-Evolves (some ref) = resolve_reference-Evolves ref

  pub resolve_schema_metadata-Evolves : Steps (Evolves {E = E}) resolve_schema_metadata
  unfolding resolve_schema_metadata
  resolve_schema_metadata-Evolves = search (session_rules, resolve-Evolves)

  send_on-Evolves :
      (channel : E.Channel) (payload : Bytes) (attributes : Option (List (String × String)))
      (routing_key : Option String)
      → Steps (Evolves {E = E}) (send_on channel payload attributes routing_key)
  unfolding send_on
  send_on-Evolves channel payload attributes routing_key =
      search (session_rules, call_metadata-Evolves) depth 12

  send_by-Evolves :
      (stub : Option E.Channel) (payload : Bytes) (attributes : Option (List (String × String)))
      (routing_key : Option String)
      → Steps (Evolves {E = E}) (send_by stub payload attributes routing_key)
  send_by-Evolves none payload attributes routing_key = search session_rules
  send_by-Evolves (some channel) payload attributes routing_key =
      send_on-Evolves channel payload attributes routing_key

  pub send-Evolves :
      (payload : Bytes) (attributes : Option (List (String × String))) (routing_key : Option String)
      → Steps (Evolves {E = E}) (send payload attributes routing_key)
  unfolding send
  send-Evolves payload attributes routing_key = search (session_rules, send_by-Evolves)
