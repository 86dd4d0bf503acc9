-- ===== src/Producer/Create/Partitions/Single.antt =====
-- What a producer without partitions is after `create`.
use danube_py.Prelude.{ℕ, pos, is_zero, some, List, [], ◌∷◌, ◌≡◌, refl, ap, ◌∙◌, if◌then◌else◌}
use danube_py.Errors.{Result, ok, err, pending}
use danube_py.Exec.{modify, ◌>>=◌, ◌>>◌}
use danube_py.Exec.Inversion.{bind_ok}
use danube_py.Env.{Env}
use danube_py.Client.{Client}
use danube_py.Router
use danube_py.Router.{MessageRouter}
use danube_py.TopicProducer.{TopicProducer, Session}
use danube_py.TopicProducer.Create.{create}
use danube_py.Growth.Session.Create.{create-Evolves}
use danube_py.Producer.{Producer, Work, set_this, on_client}
use danube_py.Producer.Create.{
  new_topic_producer, gather_first, create_all, create_single, create_partitions, create_producer,
}
use danube_py.Producer.Create.Partitions.{store, new_topic_producer_lem, create_producer_split}

module _ {E : Env} where
  gather_first_single :
      (r : Result ℕ) (tp : TopicProducer E) (out : List (TopicProducer E))
      → gather_first r tp (ok []) ≡ ok out
      → out ≡ tp ∷ []
  gather_first_single (ok a) tp out h = cc
  gather_first_single (err e) tp out h = cc
  gather_first_single pending tp out h = cc

  create_producer_one :
      (s : Work E)
      → s.this.partitions ≡ pos 0
      → create_producer s ≡ (on_client (create_single s.this) >>= store) s
  create_producer_one s one =
      create_producer_split s
      ∙ ap
          (λ b.
            (if b
                then (on_client (create_single s.this) >>= store)
                else ((set_this
                      λ q. record q { message_router = some (Router.new s.this.partitions) })
                    >> (on_client (create_partitions s.this) >>= store)))
              s)
          (ap is_zero one)

  create_all-single :
      (p : Producer E) (tp : TopicProducer E) (c : Client E) (out : List (TopicProducer E))
      → (create_all (tp ∷ []) c).0 ≡ ok out
      → (made : TopicProducer E) × (out ≡ made ∷ [])
        × (made.topic ≡ tp.topic)
        × (made.producer_name ≡ tp.producer_name)
  unfolding create_all
  create_all-single p tp c out h =
      let s : Session E = record { this = tp; client = c } in
      let k = create-Evolves.at s in
      ((create s).1.this, gather_first_single _ _ out h, k.topic, k.producer_name)

  create_single_lem :
      (p : Producer E) (c : Client E) {tps : List (TopicProducer E)}
      → (create_single p c).0 ≡ ok tps
      → (tp : TopicProducer E) × (tps ≡ tp ∷ [])
        × (tp.topic ≡ p.topic_name)
        × (tp.producer_name ≡ p.producer_name)
  unfolding create_single
  create_single_lem p c {tps} h =
      let (made, e, g, k) =
        bind_ok (new_topic_producer p p.topic_name p.producer_name) (λ tp. create_all (tp ∷ [])) c
          h in
      let (tp, f, t, m) = new_topic_producer_lem p p.topic_name p.producer_name c in
      let same : made ≡ tp = cc in
      let (out, o, t', m') =
        create_all-single p made (new_topic_producer p p.topic_name p.producer_name c).1 tps k in
      (out, o, t' ∙ ap (λ x. x.topic) same ∙ t, m' ∙ ap (λ x. x.producer_name) same ∙ m)

  -- After a `create` that returned, a producer without partitions has one topic producer, with the
  -- topic and the name of its own, and the router that it had.
  pub create_producer_single :
      (s : Work E)
      → s.this.partitions ≡ pos 0
      → (create_producer s).0 ≡ ok tt
      → let p = (create_producer s).1.this in
        (tp : TopicProducer E) × (p.producers ≡ tp ∷ [])
        × (tp.topic ≡ s.this.topic_name)
        × (tp.producer_name ≡ s.this.producer_name)
        × (p.message_router ≡ s.this.message_router)
  unfolding on_client set_this modify
  create_producer_single s none_asked h =
      let split = create_producer_one s none_asked in
      let h' = rw split at h in
      let (tps, e, g, k) = bind_ok (on_client (create_single s.this)) store s h' in
      let (tp, f, t, m) = create_single_lem s.this s.client e in rw (split, g) (tp, f, t, m, refl)
