-- ===== src/Producer/Send/Endless.antt =====
-- A producer whose messages are refused for ever: its sends do not end.
use danube_py.Prelude.{
  ℕ, suc, ◌+◌, ◌%◌, ◌<◌, String, Option, none, some, List, All, All-get_elem?, get_elem?_of_lt, ◌≡◌,
  ap, ◌∙◌, arith,
}
use danube_py.Errors.{pending}
use danube_py.Env.{Env}
use danube_py.Env.Api.{Bytes}
use native.Mathlib.Nat.{mod-lt}
use danube_py.Router.{fnv1a_hash}
use danube_py.Producer.Create.Partitions.{IsReady}
use danube_py.Producer.Send.Routing.{
  retry_manager, routed_to, send_next_partition, send_with_key_partition,
}
use danube_py.Producer.Send.{send, send_with_key}
use danube_py.Retry.Backoff.{new-IsValid}
use danube_py.TopicProducer.Accepted.{Accepts}
use danube_py.Producer.{Work}
use danube_py.Producer.Send.Refused.{Refuses}
use danube_py.Producer.Send.Forever.{HasPlain, send_loop_pending}

module _ {E : Env} where
  chosen_plain :
      (n last i : ℕ) (s : Work E)
      → IsReady n last s.this
      → i < suc n
      → s.client.manager.options.token_supplier ≡ none
      → All (λ tp. tp.schema_ref ≡ none) s.this.producers
      → HasPlain i s
  chosen_plain n last i s r k p q =
      let (tp, e) = get_elem?_of_lt s.this.producers i (omega (arith, r.count)) in
      record {
        tp = tp;
        found = e;
        plain = record {
          schema_ref = All-get_elem? (λ tp. tp.schema_ref ≡ none) s.this.producers i q e;
          token_supplier = p;
        };
      }

  rerouted-HasPlain : (n last i : ℕ) (s : Work E) → HasPlain i s → HasPlain i (routed_to n last s)
  rerouted-HasPlain n last i s h = record { tp = h.tp; found = h.found; plain = h.plain }

  -- While the broker finds every topic and registers every producer, but refuses every message with
  -- an error that is tried again, `send` and `send_with_key` of a ready producer go on without end:
  -- for topic producers without a schema and a client without a token supplier both are still pending
  -- after any number of rounds, whatever limit the settings put on the retries.
  pub send_never_ends :
      (fuel n last : ℕ) (payload : Bytes) (attributes : Option (List (String × String)))
      (routing_key : String) (s : Work E)
      → Accepts E
      → Refuses E
      → IsReady n last s.this
      → s.client.manager.options.token_supplier ≡ none
      → All (λ tp. tp.schema_ref ≡ none) s.this.producers
      → ((send fuel payload attributes s).0 ≡ pending)
        × ((send_with_key fuel payload attributes routing_key s).0 ≡ pending)
  send_never_ends fuel n last payload attributes routing_key s h r ready p q =
      let o = s.this.options in
      let v = new-IsValid o.max_retries o.base_backoff_ms o.max_backoff_ms in
      let next = (last + 1) % suc n in
      let keyed = fnv1a_hash routing_key % suc n in
      let at = chosen_plain n last next s ready (mod-lt (last + 1) (omega arith)) p q in
      let at' =
        chosen_plain n last keyed s ready (mod-lt (fnv1a_hash routing_key) (omega arith)) p q in
      (
        ap (λ x. x.0) (send_next_partition fuel n last payload attributes s ready).0
            ∙ send_loop_pending fuel next 0 (retry_manager s.this) payload attributes none
                (routed_to n next s) h r v (rerouted-HasPlain n next next s at),
        ap (λ x. x.0) (send_with_key_partition fuel n last payload attributes routing_key s ready).0
            ∙ send_loop_pending fuel keyed 0 (retry_manager s.this) payload attributes
                (some routing_key) s h r v at',
      )
