-- ===== src/Producer/Send/Routing.antt =====
-- Which partition a message goes to, and what a send leaves of the producer.
use danube_py.Prelude.{
  ℕ, suc, ◌+◌, ◌%◌, ◌<◌, String, ℤ, pos, is_pos, Option, none, some, List, [], ◌∷◌, length, lt→ltb,
  ◌≡◌, refl, ap, ◌∙◌, sym, subst, arith,
}
use native.Mathlib.Nat.{mod-lt, mod-add-mod, mod-eq_of_lt}
use danube_py.Errors.{ok, err, danube_error}
use danube_py.Exec.{Exec, ◌>>=◌, raise, pure}
use danube_py.Exec.Inversion.{bind_at}
use danube_py.Env.{Env}
use danube_py.Env.Api.{Bytes}
use danube_py.Retry
use danube_py.Retry.{RetryManager}
use danube_py.Router
use danube_py.Router.{MessageRouter, fnv1a_hash}
use danube_py.Router.RoundRobin.{router_at, round_robin_lem}
use danube_py.Router.Hash.{key_route_lem}
use danube_py.Growth.Work.{deliver-Persists}
use danube_py.Producer.{
  Producer, Work, get_this, on_router, pick, select_partition, select_partition_for_key,
}
use danube_py.Producer.Create.Partitions.{IsReady}
use danube_py.Producer.Send.{send_loop, deliver, send, send_with_key}

module _ {E : Env} where
  abbrev pub retry_manager : Producer E → RetryManager
  retry_manager p =
      Retry.new p.options.max_retries p.options.base_backoff_ms p.options.max_backoff_ms

  -- The router's state is replaced.
  abbrev pub routed_to : ℕ → ℕ → Work E → Work E
  routed_to n last s = record s {
    this = record (s.this) { message_router = some (router_at n last) };
  }

  -- A call on the router of a producer that is ready.
  pick_ready :
      (m : Exec MessageRouter ℤ) (n last i next : ℕ) (s : Work E)
      → IsReady n last s.this
      → m (router_at n last) ≡ (ok (pos i), router_at n next)
      → pick s.this s.this.message_router m s ≡ (ok (pos i), routed_to n next s)
  unfolding on_router
  pick_ready m n last i next s r h = rw (r.message_router, r.partitions, is_pos, h) refl

  deliver_in_range :
      (fuel n last i : ℕ) (payload : Bytes) (attributes : Option (List (String × String)))
      (routing_key : Option String) (s : Work E)
      → IsReady n last s.this
      → i < suc n
      → deliver fuel (pos i) payload attributes routing_key s
        ≡ send_loop (retry_manager s.this) (pos i) payload attributes routing_key fuel 0 s
  unfolding deliver get_this
  deliver_in_range fuel n last i payload attributes routing_key s r h =
      rw (lt→ltb i (length s.this.producers) (omega (arith, r.count))) refl

  deliver-IsReady :
      (fuel n last i : ℕ) (payload : Bytes) (attributes : Option (List (String × String)))
      (routing_key : Option String) (s : Work E)
      → IsReady n last s.this
      → IsReady n last (deliver fuel (pos i) payload attributes routing_key s).1.this
  deliver-IsReady fuel n last i payload attributes routing_key s r =
      let g = (deliver-Persists fuel (pos i) payload attributes routing_key).at s in
      record {
        partitions = ap (λ p. p.partitions) g.rest ∙ r.partitions;
        message_router = ap (λ p. p.message_router) g.rest ∙ r.message_router;
        in_range = r.in_range;
        count = g.count ∙ r.count;
      }

  pub rerouted :
      (n last next : ℕ) (s : Work E)
      → IsReady n last s.this
      → next < suc n
      → IsReady n next (routed_to n next s).this
  rerouted n last next s r h = record {
    partitions = r.partitions;
    message_router = refl;
    in_range = h;
    count = r.count;
  }

  select_partition_ready :
      (n last : ℕ) (s : Work E)
      → IsReady n last s.this
      → let next = (last + 1) % suc n in select_partition s ≡ (ok (pos next), routed_to n next s)
  unfolding select_partition get_this ◌>>=◌
  select_partition_ready n last s r =
      pick_ready Router.round_robin n last ((last + 1) % suc n) ((last + 1) % suc n) s r
        (round_robin_lem n last)

  select_partition_for_key_ready :
      (routing_key : String) (n last : ℕ) (s : Work E)
      → IsReady n last s.this
      → select_partition_for_key routing_key s ≡ (ok (pos (fnv1a_hash routing_key % suc n)), s)
  unfolding select_partition_for_key get_this ◌>>=◌
  select_partition_for_key_ready routing_key n last s r =
      pick_ready (Router.key_route routing_key) n last (fnv1a_hash routing_key % suc n) last s r
        (key_route_lem routing_key n last).0
      ∙ ap
          (λ m. (
            ok (pos (fnv1a_hash routing_key % suc n)),
            record s { this = record (s.this) { message_router = m } },
          ))
          (sym r.message_router)

  -- A ready producer sends its next message to the partition behind its last one, round the ring: it
  -- runs the loop of attempts on that partition with the settings of its options, and whatever comes
  -- of that, it is ready afterwards, with this partition as the last.
  pub send_next_partition :
      (fuel n last : ℕ) (payload : Bytes) (attributes : Option (List (String × String)))
      (s : Work E)
      → IsReady n last s.this
      → let next = (last + 1) % suc n in
        (send fuel payload attributes s
          ≡ send_loop
              (retry_manager s.this)
              (pos next)
              payload
              attributes
              none
              fuel
              0
              (routed_to n next s))
        × IsReady n next (send fuel payload attributes s).1.this
  unfolding send
  send_next_partition fuel n last payload attributes s r =
      let next = (last + 1) % suc n in
      let fits = mod-lt (last + 1) (omega arith) in
      let again = rerouted n last next s r fits in
      let reached =
        bind_at select_partition (λ i. deliver fuel i payload attributes none) s
          (select_partition_ready n last s r) in
      (
        reached
            ∙ deliver_in_range fuel n next next payload attributes none (routed_to n next s) again
                fits,
        rw reached
            (deliver-IsReady fuel n next next payload attributes none (routed_to n next s) again),
      )

  -- A ready producer sends a message with a key to the partition that the key's hash chooses, again
  -- with the settings of its options, and is ready afterwards, with the last partition it had: keyed
  -- messages and the others do not disturb each other.
  pub send_with_key_partition :
      (fuel n last : ℕ) (payload : Bytes) (attributes : Option (List (String × String)))
      (routing_key : String) (s : Work E)
      → IsReady n last s.this
      → let i = fnv1a_hash routing_key % suc n in
        (send_with_key fuel payload attributes routing_key s
          ≡ send_loop (retry_manager s.this) (pos i) payload attributes (some routing_key) fuel 0 s)
        × IsReady n last (send_with_key fuel payload attributes routing_key s).1.this
  unfolding send_with_key
  send_with_key_partition fuel n last payload attributes routing_key s r =
      let i = fnv1a_hash routing_key % suc n in
      let reached =
        bind_at (select_partition_for_key routing_key)
          (λ i. deliver fuel i payload attributes (some routing_key)) s
          (select_partition_for_key_ready routing_key n last s r) in
      (
        reached
            ∙ deliver_in_range fuel n last i payload attributes (some routing_key) s r
                (key_route_lem routing_key n last).1,
        rw reached (deliver-IsReady fuel n last i payload attributes (some routing_key) s r),
      )

  -- The producer after a sequence of messages without keys, whatever comes of each.
  abbrev pub after_sends : ℕ → List (Bytes × Option (List (String × String))) → Work E → Work E
  after_sends fuel [] s = s
  after_sends fuel ((payload, attributes) ∷ rest) s =
      after_sends fuel rest (send fuel payload attributes s).1

  -- However many messages a ready producer of n partitions has sent, and whatever came of each, it
  -- is ready, and its last partition is as many places further round the ring as there were
  -- messages: also a message that failed for good uses up a turn.
  pub after_sends-IsReady :
      (fuel n last : ℕ) (messages : List (Bytes × Option (List (String × String)))) (s : Work E)
      → IsReady n last s.this
      → IsReady n ((last + length messages) % suc n) (after_sends fuel messages s).this
  after_sends-IsReady fuel n last [] s r =
      subst (λ i. IsReady n i s.this)
        (sym (mod-eq_of_lt r.in_range) ∙ ap (λ t. t % suc n) (omega arith)) r
  after_sends-IsReady fuel n last ((payload, attributes) ∷ rest) s r =
      let next = (last + 1) % suc n in
      let h = (send_next_partition fuel n last payload attributes s r).1 in
      let k = after_sends-IsReady fuel n next rest (send fuel payload attributes s).1 h in
      subst (λ i. IsReady n i (after_sends fuel rest (send fuel payload attributes s).1).this)
        (mod-add-mod (last + 1) (suc n) (length rest) ∙ ap (λ t. t % suc n) (omega arith)) k

  -- A producer with neither topic producers nor a router refuses a message: the error says that the
  -- partition is out of range, and nothing has changed.
  send_before_create :
      (fuel : ℕ) (payload : Bytes) (attributes : Option (List (String × String))) (s : Work E)
      → s.this.producers ≡ []
      → s.this.message_router ≡ none
      → send fuel payload attributes s ≡ (err (danube_error "partition ID out of range"), s)
  unfolding send select_partition get_this deliver ◌>>=◌ pure raise
  send_before_create fuel payload attributes s e m = rw (e, m) refl
