-- ===== src/Growth/Producing.antt =====
-- All methods of a producer leave its settings, and let the shared client only grow.
use danube_py.Prelude.{
  ℕ, zero, suc, String, ℤ, Option, none, some, List, [], ◌∷◌, ◌≡◌, refl, ap, sym, ◌∙◌,
}
use danube_py.Exec.{Exec}
use danube_py.Exec.Steps.{IsPreorder, Steps, Steps-gets, Steps-modify, steps_rules}
use danube_py.Env.{Env}
use danube_py.Env.Api.{Bytes}
use danube_py.Client.{Client}
use danube_py.Connection.Growth.{Grows, Grows-preorder, new_event-Grows}
use danube_py.Router.{MessageRouter}
use danube_py.Growth.Session.Create.{create-Evolves, stop-Evolves}
use danube_py.Growth.Work.{deliver-Persists}
use danube_py.TopicProducer
use danube_py.TopicProducer.Create
use danube_py.TopicProducer.{TopicProducer, Session, DispatchStrategy}
use danube_py.Producer.{
  Producer, Work, get_this, set_this, on_client, on_router, pick, select_partition,
  select_partition_for_key,
}
use danube_py.Producer.Create.{
  new_topic_producer, new_topic_producers, create_all, create_single, create_partitions,
  create_producer, stop_all, close,
}
use danube_py.Producer.Send.{deliver, send, send_with_key}

module _ {E : Env} where
  -- The settings stay and the client grows; the topic producers and the router may change.
  pub record Works (s t : Work E) : Type 0 where
    pub client : Grows s.client t.client
    pub settings :
        t.this
        ≡ record (s.this) { producers = t.this.producers; message_router = t.this.message_router }

  Works-preorder : IsPreorder Works
  Works-preorder = record {
    reflexive = λ s. record { client = Grows-preorder.reflexive s.client; settings = refl };
    transitive = λ s t u f g. record {
      client = Grows-preorder.transitive s.client t.client u.client f.client g.client;
      settings =
          g.settings
          ∙ ap {A = Producer E}
              (λ p. record p {
                producers = u.this.producers;
                message_router = u.this.message_router;
              })
              f.settings;
    };
  }

  on_client-Works : {A : Type 0} (m : Exec (Client E) A) → Steps Grows m → Steps Works (on_client m)
  unfolding on_client
  on_client-Works m h = record { at = λ s. record { client = h.at s.client; settings = refl } }

  get_this-Works : {A : Type 0} (f : Producer E → A) → Steps Works (get_this f)
  unfolding get_this
  get_this-Works f = Steps-gets Works-preorder _

  set_producers-Works :
      (tps : List (TopicProducer E)) → Steps Works (set_this λ p. record p { producers = tps })
  unfolding set_this
  set_producers-Works tps =
      Steps-modify _ λ s. record { client = Grows-preorder.reflexive s.client; settings = refl }

  set_router-Works :
      (r : MessageRouter) → Steps Works (set_this {E = E} λ p. record p { message_router = some r })
  unfolding set_this
  set_router-Works r =
      Steps-modify _ λ s. record { client = Grows-preorder.reflexive s.client; settings = refl }

  on_router-Works :
      {A : Type 0} (r : MessageRouter) (m : Exec MessageRouter A)
      → Steps Works (on_router {E = E} r m)
  unfolding on_router
  on_router-Works r m = record {
    at = λ s. record { client = Grows-preorder.reflexive s.client; settings = refl };
  }

  deliver-Works :
      (fuel : ℕ) (i : ℤ) (payload : Bytes) (attributes : Option (List (String × String)))
      (routing_key : Option String)
      → Steps Works (deliver fuel i payload attributes routing_key)
  deliver-Works fuel i payload attributes routing_key = record {
    at = λ s.
        let t = (deliver fuel i payload attributes routing_key s).1 in
        let k = (deliver-Persists fuel i payload attributes routing_key).at s in
        record {
          client = k.client;
          settings =
              k.rest
              ∙ ap (λ r. record (s.this) { producers = t.this.producers; message_router = r })
                  (sym (ap (λ p. p.message_router) k.rest));
        };
  }

  new_topic_producer-Grows :
      (p : Producer E) (topic name : String)
      → Steps (Grows {E = E}) (new_topic_producer p topic name)
  unfolding new_topic_producer TopicProducer.new
  new_topic_producer-Grows p topic name =
      search (steps_rules, Grows-preorder, new_event-Grows) depth 7

  pub new_topic_producers-Grows :
      (p : Producer E) (n pid : ℕ) → Steps (Grows {E = E}) (new_topic_producers p n pid)
  unfolding new_topic_producers
  new_topic_producers-Grows p zero pid = search (steps_rules, Grows-preorder)
  new_topic_producers-Grows p (suc n) pid =
      search (steps_rules, Grows-preorder, new_topic_producer-Grows, new_topic_producers-Grows p n)

  create_all-Grows : (tps : List (TopicProducer E)) → Steps (Grows {E = E}) (create_all tps)
  unfolding create_all
  create_all-Grows [] = record { at = Grows-preorder.reflexive }
  create_all-Grows (tp ∷ tps) = record {
    at = λ c.
        let s : Session E = record { this = tp; client = c } in
        let t = (Create.create s).1 in
        Grows-preorder.transitive c t.client _ (create-Evolves.at s).client
          ((create_all-Grows tps).at t.client);
  }

  create_single-Grows : (p : Producer E) → Steps (Grows {E = E}) (create_single p)
  unfolding create_single
  create_single-Grows p =
      search (steps_rules, Grows-preorder, new_topic_producer-Grows, create_all-Grows)

  create_partitions-Grows : (p : Producer E) → Steps (Grows {E = E}) (create_partitions p)
  unfolding create_partitions
  create_partitions-Grows p =
      search (steps_rules, Grows-preorder, new_topic_producers-Grows, create_all-Grows)

  stop_all-Grows : (tps : List (TopicProducer E)) → Steps (Grows {E = E}) (stop_all tps)
  unfolding stop_all
  stop_all-Grows [] = record { at = Grows-preorder.reflexive }
  stop_all-Grows (tp ∷ tps) = record {
    at = λ c.
        let s : Session E = record { this = tp; client = c } in
        let t = (Create.stop s).1 in
        Grows-preorder.transitive c t.client _ (stop-Evolves.at s).client
          ((stop_all-Grows tps).at t.client);
  }

ruleset producer_rules = (
  steps_rules, Works-preorder, on_client-Works, get_this-Works, set_producers-Works,
  set_router-Works, on_router-Works, deliver-Works,
)

module _ {E : Env} where
  pub create_producer-Works : Steps (Works {E = E}) create_producer
  unfolding create_producer
  create_producer-Works =
      search (producer_rules, create_single-Grows, create_partitions-Grows) depth 9

  pub close-Works : Steps (Works {E = E}) close
  unfolding close
  close-Works = search (producer_rules, stop_all-Grows) depth 7

  pick-Works :
      (p : Producer E) (r : Option MessageRouter) (m : Exec MessageRouter ℤ)
      → Steps (Works {E = E}) (pick p r m)
  pick-Works p none m = search producer_rules
  pick-Works p (some r) m = search producer_rules

  select_partition-Works : Steps (Works {E = E}) select_partition
  unfolding select_partition
  select_partition-Works = search (producer_rules, pick-Works)

  select_partition_for_key-Works :
      (routing_key : String) → Steps (Works {E = E}) (select_partition_for_key routing_key)
  unfolding select_partition_for_key
  select_partition_for_key-Works routing_key = search (producer_rules, pick-Works)

  pub send-Works :
      (fuel : ℕ) (payload : Bytes) (attributes : Option (List (String × String)))
      → Steps (Works {E = E}) (send fuel payload attributes)
  unfolding send
  send-Works fuel payload attributes = search (producer_rules, select_partition-Works) depth 7

  pub send_with_key-Works :
      (fuel : ℕ) (payload : Bytes) (attributes : Option (List (String × String)))
      (routing_key : String)
      → Steps (Works {E = E}) (send_with_key fuel payload attributes routing_key)
  unfolding send_with_key
  send_with_key-Works fuel payload attributes routing_key =
      search (producer_rules, select_partition_for_key-Works) depth 7
