-- ===== src/Producer/Create/Accepted.antt =====
-- `Producer.create` with a broker that accepts: it returns, with all topic producers connected.
use danube_py.Prelude.{
  ℕ, zero, suc, ◌+◌, String, pos, none, some, List, [], ◌∷◌, All, ◌≡◌, refl, sym, ap, ◌∙◌, subst,
}
use danube_py.Errors.{ok}
use danube_py.Exec.{pure, gets, modify, zoom, ◌>>=◌}
use danube_py.Exec.Inversion.{bind_step}
use danube_py.Env.{Env}
use danube_py.Client.{Client}
use danube_py.TopicProducer.{TopicProducer, Session}
use danube_py.TopicProducer.Accepted.{Accepts}
use danube_py.TopicProducer.Create.{create}
use danube_py.TopicProducer.Create.Accepted.{create-Returns}
use danube_py.Growth.Producing.{new_topic_producers-Grows}
use danube_py.Producer.{Producer, Work, set_this, on_client}
use danube_py.Producer.Create.{
  partition_topic, partition_name, new_topic_producer, new_topic_producers, range_length,
  create_all, create_partitions, create_producer,
}
use danube_py.Producer.Create.Partitions.{create_producer_many}

module _ {E : Env} where
  abbrev pub HasNoSupplier : Client E → Type 0
  HasNoSupplier c = c.manager.options.token_supplier ≡ none

  -- A connected topic producer without a schema.
  pub record IsUp (tp : TopicProducer E) : Type 0 where
    pub schema_ref : tp.schema_ref ≡ none
    pub channel : E.Channel
    pub stub : tp.stub ≡ some channel

  new_topic_producer_plain :
      (p : Producer E) (topic name : String) (c : Client E)
      → (tp : TopicProducer E) × ((new_topic_producer p topic name c).0 ≡ ok tp)
        × (tp.schema_ref ≡ p.schema_ref)
  unfolding new_topic_producer ◌>>=◌ pure gets
  new_topic_producer_plain p topic name c = (_, refl, refl)

  new_topic_producers_plain :
      (p : Producer E) (n pid : ℕ) (c : Client E)
      → p.schema_ref ≡ none
      → (tps : List (TopicProducer E)) × ((new_topic_producers p n pid c).0 ≡ ok tps)
        × All (λ tp. tp.schema_ref ≡ none) tps
  unfolding new_topic_producers pure ◌>>=◌
  new_topic_producers_plain p zero pid c q = ([], refl, tt)
  new_topic_producers_plain p (suc n) pid c q =
      let topic = partition_topic p.topic_name pid in
      let name = partition_name p.producer_name pid in
      let (tp, e, r) = new_topic_producer_plain p topic name c in
      let c' = (new_topic_producer p topic name c).1 in
      let (tps, f, h) = new_topic_producers_plain p n (pid + 1) c' q in
      let step =
        bind_step (new_topic_producer p topic name)
          (λ tp. new_topic_producers p n (pid + 1) >>= λ rest. pure (tp ∷ rest)) c e in
      let rest = bind_step (new_topic_producers p n (pid + 1)) (λ rest. pure (tp ∷ rest)) c' f in
      (tp ∷ tps, ap (λ x. x.0) (step ∙ rest), (r ∙ q, h))

  create_all_ok :
      (tps : List (TopicProducer E)) (c : Client E)
      → Accepts E
      → HasNoSupplier c
      → All (λ tp. tp.schema_ref ≡ none) tps
      → (out : List (TopicProducer E)) × ((create_all tps c).0 ≡ ok out)
        × All IsUp out
        × HasNoSupplier (create_all tps c).1
  unfolding create_all
  create_all_ok [] c h p q = ([], refl, tt, p)
  create_all_ok (tp ∷ tps) c h p q =
      let s : Session E = record { this = tp; client = c } in
      let (a, e, k) = (create-Returns h).at s (record { schema_ref = q.0; token_supplier = p }) in
      let t = (create s).1 in
      let (out, f, up, rest) = create_all_ok tps t.client h k.plain.token_supplier q.1 in
      (
        t.this ∷ out,
        rw (e, f) refl,
        (record { schema_ref = k.plain.schema_ref; channel = k.channel; stub = k.stub }, up),
        rest,
      )

  create_partitions_ok :
      (p : Producer E) (c : Client E)
      → Accepts E
      → p.schema_ref ≡ none
      → HasNoSupplier c
      → (out : List (TopicProducer E)) × ((create_partitions p c).0 ≡ ok out)
        × All IsUp out
        × HasNoSupplier (create_partitions p c).1
  unfolding create_partitions
  create_partitions_ok p c h plain q =
      let n = range_length p.partitions in
      let (tps, e, k) = new_topic_producers_plain p n 0 c plain in
      let c' = (new_topic_producers p n 0 c).1 in
      let kept = ap (λ o. o.token_supplier) ((new_topic_producers-Grows p n 0).at c).options in
      let split = bind_step (new_topic_producers p n 0) create_all c e in
      let (out, f, up, rest) = create_all_ok tps c' h (kept ∙ q) k in
      (out, ap (λ x. x.0) split ∙ f, up, subst (λ x. HasNoSupplier x.1) (sym split) rest)

  -- What `create` leaves with a broker that accepts.
  pub create_producer_ok :
      (s : Work E) (n : ℕ)
      → Accepts E
      → s.this.partitions ≡ pos (suc n)
      → s.this.schema_ref ≡ none
      → HasNoSupplier s.client
      → ((create_producer s).0 ≡ ok tt)
        × All IsUp (create_producer s).1.this.producers
        × HasNoSupplier (create_producer s).1.client
  unfolding on_client set_this modify zoom ◌>>=◌
  create_producer_ok s n h many plain p =
      let (out, e, up, rest) = create_partitions_ok s.this s.client h plain p in
      rw (create_producer_many s n many, e) (refl, up, rest)
