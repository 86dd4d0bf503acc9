-- ===== src/Program/Growth.antt =====
-- Whatever a program does, its client keeps its connections.
use danube_py.Env.Api.{StreamMessage}
use danube_py.Prelude.{String, ℕ, zero, suc, List, [], ◌∷◌, All, arith, refl, ◌≡◌}
use danube_py.Errors.{ok}
use danube_py.Exec.Steps.{Steps, steps_rules}
use danube_py.Env.{Env}
use danube_py.Client.{Client}
use danube_py.Client as Client
use danube_py.Connection.Growth.{Grows, Grows-preorder, outside-Grows, new_event-Grows}
use danube_py.Growth.{health_round-Grows, get_schema_version-Grows, get_latest_schema-Grows}
use danube_py.Growth.Administration.{
  list_versions-Grows, check_compatibility-Grows, set_compatibility_mode-Grows,
  delete_schema_version-Grows, configure_topic_schema-Grows, update_topic_validation_policy-Grows,
  get_topic_schema_config-Grows, execute-Grows,
}
use danube_py.Growth.Producing.{
  Works, create_producer-Works, close-Works, send-Works, send_with_key-Works,
}
use danube_py.Growth.Group.{IsBounded, Keeps}
use danube_py.Growth.Group.Calls.{receive-Keeps, ack-Keeps, nack-Keeps, close-Keeps, wake-Keeps}
use danube_py.Growth.Group.Subscribing.{subscribe-Keeps}
use danube_py.Connection.Cache.{Extends}
use danube_py.ClientBuilder.{ClientBuilder}
use danube_py.ClientBuilder.Guarded.{BuilderCall, configure}
use danube_py.Producer.{Work}
use danube_py.Consumer.{Group}
use danube_py.Consumer.Builder.{ConsumerBuilder, build}
use danube_py.Program.{
  ProducerCall, creates, sends, sends_with_key, closes, ConsumerCall, subscribes, receives, acks,
  nacks, leaves, wakes, takes, ClientCall, checks_health, registers, gets_version, gets_latest,
  lists_versions, checks_compatibility, sets_compatibility, deletes_version, configures_topic,
  updates_policy, gets_config, tail_of, take_head, produce, consume, manage, Program, group_of,
  Step, producing, consuming, managing, building_producer, building_consumer, configuring,
  builder_of, reconfigured, outside, Reach, here, later,
}

tail_of-IsBounded : (q : List StreamMessage) → IsBounded q → IsBounded (tail_of q)
tail_of-IsBounded [] h = h
tail_of-IsBounded (m ∷ q) h = omega arith

take_head-IsBounded :
    (i : ℕ) (qs : List (List StreamMessage)) → All IsBounded qs → All IsBounded (take_head i qs)
take_head-IsBounded i [] h = tt
take_head-IsBounded zero (q ∷ qs) h = (tail_of-IsBounded q h.0, h.1)
take_head-IsBounded (suc i) (q ∷ qs) h = (h.0, take_head-IsBounded i qs h.1)

module _ {E : Env} where
  produce-Works : (call : ProducerCall) (s : Work E) → Works s (produce call s)
  produce-Works creates s = create_producer-Works.at s
  produce-Works (sends rounds payload attributes) s = (send-Works rounds payload attributes).at s
  produce-Works (sends_with_key rounds payload attributes key) s =
      (send_with_key-Works rounds payload attributes key).at s
  produce-Works closes s = close-Works.at s

  pub consume-Keeps : (call : ConsumerCall) (g : Group E) → Keeps g (consume call g)
  consume-Keeps subscribes g = subscribe-Keeps.at g
  consume-Keeps receives g = receive-Keeps.at g
  consume-Keeps (acks m) g = (ack-Keeps m).at g
  consume-Keeps (nacks m delay reason) g = (nack-Keeps m delay reason).at g
  consume-Keeps leaves g = close-Keeps.at g
  consume-Keeps (wakes i) g = wake-Keeps i g
  consume-Keeps (takes q) g = record {
    client = Grows-preorder.reflexive g.client;
    settings = refl;
    topics = λ topic i o. o;
    keyed = λ k. record { keyed = k.keyed };
    queues = take_head-IsBounded q g.queues;
  }

  manage-Grows : (call : ClientCall) (c : Client E) → Grows c (manage call c)
  manage-Grows (checks_health i) c = (health_round-Grows i).at c
  manage-Grows (registers b) c = (execute-Grows b).at c
  manage-Grows (gets_version id version) c = (get_schema_version-Grows id version).at c
  manage-Grows (gets_latest subject) c = (get_latest_schema-Grows subject).at c
  manage-Grows (lists_versions subject) c = (list_versions-Grows subject).at c
  manage-Grows (checks_compatibility subject bytes t mode) c =
      (check_compatibility-Grows subject bytes t mode).at c
  manage-Grows (sets_compatibility subject mode) c =
      (set_compatibility_mode-Grows subject mode).at c
  manage-Grows (deletes_version subject version) c =
      (delete_schema_version-Grows subject version).at c
  manage-Grows (configures_topic topic subject policy on) c =
      (configure_topic_schema-Grows topic subject policy on).at c
  manage-Grows (updates_policy topic policy on) c =
      (update_topic_validation_policy-Grows topic policy on).at c
  manage-Grows (gets_config topic) c = (get_topic_schema_config-Grows topic).at c

  build-Grows : (b : ConsumerBuilder) → Steps (Grows {E = E}) (build b)
  unfolding build
  build-Grows b = search (steps_rules, Grows-preorder, new_event-Grows)

  -- A step lets the client grow, or it is a call of its builder, which changes the settings alone.
  pub Step_cases :
      {s t : Program E} (R : Client E → Client E → Type 0)
      → Step s t
      → ((c d : Client E) → Grows c d → R c d)
      → ((c : Client E) (call : BuilderCall E) (uri : String) (b : ClientBuilder E) (w : E.World)
          → (configure call (builder_of uri c) c.world).0 ≡ ok b
          → R c (reconfigured b w c))
      → R s.client t.client
  unfolding Client.outside
  Step_cases {s} R (producing i p call e) f g =
      f _ _ (produce-Works call (record { this = p; client = s.client })).client
  Step_cases {s} R (consuming i m call e) f g =
      f _ _ (consume-Keeps call (group_of m s.client)).client
  Step_cases {s} R (managing call) f g = f _ _ (manage-Grows call s.client)
  Step_cases {s} R (building_producer b p e) f g = f _ _ (Grows-preorder.reflexive s.client)
  Step_cases {s} R (building_consumer b c e) f g = f _ _ ((build-Grows b).at s.client)
  Step_cases {s} R (configuring call uri b e) f g = g s.client call uri b _ e
  Step_cases {s} R (outside w) f g = f _ _ ((outside-Grows (λ _. (ok tt, w))).at s.client)

  -- No run of a program takes a connection from its client.
  pub Reach-Extends :
      {s t : Program E}
      → Reach s t
      → Extends s.client.manager.connections t.client.manager.connections
  Reach-Extends here k conn h = h
  Reach-Extends (later r st) k conn h =
      Step_cases (λ c d. Extends c.manager.connections d.manager.connections) st (λ c d g. g.found)
        (λ c call uri b w e j x y. y) k conn (Reach-Extends r k conn h)
