-- ===== src/Growth/Group/Subscribing.antt =====
-- `Consumer.subscribe`, however it ends.
use danube_py.Errors.{ok-inj}
use danube_py.Prelude.{
  ℕ, String, some, List, [], ◌∷◌, ◌++◌, length, get_elem?, get_elem?-append_length, ◌≡◌, refl, sym,
  ap, ◌∙◌, subst,
}
use danube_py.Exec.{Exec, pure, gets, modify, ◌>>=◌, ◌>>◌}
use danube_py.Exec.Steps.{Steps, Steps-pure, Steps-gets, Steps-modify, steps_rules}
use danube_py.Env.{Env}
use danube_py.Connection.Growth.{Grows, Grows-preorder, new_event-Grows}
use danube_py.Lookup.{topic_partitions}
use danube_py.TopicConsumer
use danube_py.TopicConsumer.{TopicConsumer}
use danube_py.TopicConsumer.Subscribe
use danube_py.Growth.{topic_partitions-Grows}
use danube_py.Growth.Subscriber.{subscribe-Evolves}
use danube_py.Growth.Group.{Keeps, Keeps-preorder, on_client-Keeps, on_member-Keeps, bind-Keeps}
use danube_py.Consumer.{Consumer, Group, sub_type_value}
use danube_py.Consumer.Dict.{dict_of}
use danube_py.Consumer.Methods.{
  get_this, set_this, on_client, on_member, add_member, subscribe_one, subscribe_all, subscribe,
}
use danube_py.Consumer.Methods.Keyed.{
  AreOf, IsKeyed, IsOf-append, add_member_lem, subscribe_all_lem, finish, finish-IsKeyed,
  no_partitions_kept,
}

module _ {E : Env} where
  get_this-Keeps : {A : Type 0} (f : Consumer E → A) → Steps Keeps (get_this f)
  unfolding get_this
  get_this-Keeps f = Steps-gets Keeps-preorder _

  append-Keeps :
      (tc : TopicConsumer E)
      → Steps Keeps (modify λ g. record g { topic_consumers = g.topic_consumers ++ (tc ∷ []) })
  append-Keeps tc = Steps-modify _ λ g. record {
    client = Grows-preorder.reflexive g.client;
    settings = refl;
    topics = λ topic i o. IsOf-append g.topic_consumers (tc ∷ []) topic i o;
    keyed = λ k. record {
      keyed = λ topic i h. IsOf-append g.topic_consumers (tc ∷ []) topic i (k.keyed topic i h);
    };
    queues = λ b. b;
  }

  new-Grows :
      (p : String) (c : Consumer E)
      → Steps (Grows {E = E}) (
          TopicConsumer.new p c.consumer_name c.subscription
            (sub_type_value c.subscription_type)
            c.key_filters
            c.options.max_retries
            c.options.base_backoff_ms
            c.options.max_backoff_ms)
  unfolding TopicConsumer.new
  new-Grows p c = search (steps_rules, Grows-preorder, new_event-Grows) depth 7

  add_member-Keeps : (partition : String) → Steps (Keeps {E = E}) (add_member partition)
  unfolding add_member
  add_member-Keeps partition =
      search (steps_rules, Keeps-preorder, get_this-Keeps, on_client-Keeps, append-Keeps, new-Grows)
        depth 9

  subscribe_one-Keeps : (partition : String) → Steps (Keeps {E = E}) (subscribe_one partition)
  unfolding subscribe_one
  subscribe_one-Keeps partition = record {
    at = λ g.
        let (tc, e, name, same) = add_member_lem partition g in
        let place = length g.topic_consumers in
        let named : ℕ → Exec (Group E) (String × ℕ) = λ i. pure (partition, i) in
        let rest : ℕ × TopicConsumer E → Exec (Group E) (String × ℕ) =
          λ m. on_member m.0 m.1 Subscribe.subscribe >> named m.0 in
        bind-Keeps (add_member partition) rest g ((add_member-Keeps partition).at g) λ m f.
          let h = (add_member partition g).1 in
          let here =
            subst (λ y. get_elem? h.topic_consumers y.0 ≡ some y.1) (ok-inj (sym e ∙ f))
              (ap (λ tcs. get_elem? tcs place) same
                ∙ get_elem?-append_length g.topic_consumers tc []) in
          bind-Keeps (on_member m.0 m.1 Subscribe.subscribe) (λ _. named m.0) h
            (on_member-Keeps m.0 m.1 Subscribe.subscribe h here subscribe-Evolves)
            λ _ _. (Steps-pure Keeps-preorder {A = String × ℕ} (partition, m.0)).at _;
  }

  subscribe_all-Keeps : (ps : List String) → Steps (Keeps {E = E}) (subscribe_all ps)
  unfolding subscribe_all
  subscribe_all-Keeps [] = record { at = Keeps-preorder.reflexive }
  subscribe_all-Keeps (p ∷ ps) = record {
    at = λ g.
        let h = (subscribe_one p g).1 in
        Keeps-preorder.transitive g h _ ((subscribe_one-Keeps p).at g)
          ((subscribe_all-Keeps ps).at h);
  }

  finish-Keeps :
      (results : List (String × ℕ)) (g : Group E)
      → AreOf g.topic_consumers results
      → Keeps g (finish results g).1
  unfolding set_this modify ◌>>=◌
  finish-Keeps results g a =
      let entries = dict_of [] results in
      let stored : Group E = record g { this = record (g.this) { consumers = entries } } in
      let kept = no_partitions_kept entries stored in
      subst (Keeps g) (sym kept) (record {
        client = Grows-preorder.reflexive g.client;
        settings = refl;
        topics = λ topic i o. o;
        keyed = λ _. subst IsKeyed kept (finish-IsKeyed results g a);
        queues = λ b. b;
      })

  pub subscribe-Keeps : Steps (Keeps {E = E}) subscribe
  unfolding subscribe get_this gets
  subscribe-Keeps = record {
    at = λ g.
        let find = on_client (topic_partitions g.client.uri g.this.topic_name) in
        bind-Keeps find (λ ps. subscribe_all ps >>= finish) g
          ((on_client-Keeps _ (topic_partitions-Grows g.client.uri g.this.topic_name)).at g)
          λ ps _.
            let h = (find g).1 in
            let (more, kept, of_all) = subscribe_all_lem ps h in
            bind-Keeps (subscribe_all ps) finish h ((subscribe_all-Keeps ps).at h) λ rs f.
              finish-Keeps rs (subscribe_all ps h).1
                (subst (λ tcs. AreOf tcs rs) (sym kept) (of_all rs f));
  }
