-- ===== src/Producer/Create/Partitions.antt =====
-- What a producer is after `create`: one topic producer for each partition, each with its own topic.
pub mod Single
use danube_py.Prelude.{
  ℕ, zero, suc, ◌+◌, ◌≤◌, ◌<◌, String, ◌<>◌, decimal, decimal-injective, ℤ, pos, is_zero, Option,
  none, some, List, [], ◌∷◌, length, get_elem?, ◌≡◌, refl, ap, ◌∙◌, arith, if◌then◌else◌,
}
use text.Mathlib.TextLemmas.{append_cancel_left}
use danube_py.Errors.{Result, ok, err, pending}
use danube_py.Exec.{Exec, pure, gets, modify, zoom, ◌>>=◌, ◌>>◌}
use danube_py.Exec.Inversion.{bind_step, bind_ok}
use danube_py.Env.{Env}
use danube_py.Client.{Client}
use danube_py.Router
use danube_py.Router.{MessageRouter}
use danube_py.Router.RoundRobin.{router_at, new_lem}
use danube_py.TopicProducer.{TopicProducer, Session}
use danube_py.TopicProducer.Create.{create}
use danube_py.Growth.Session.Create.{create-Evolves}
use danube_py.Producer.{Producer, Work, get_this, set_this, on_client}
use danube_py.Producer.Create.{
  partition_topic, partition_name, range_length, new_topic_producer, new_topic_producers,
  gather_first, create_all, create_single, create_partitions, create_producer,
}

module _ {E : Env} where
  -- Topic producers for the partitions from a number on: of each the topic and the name.
  abbrev pub AreNamed : Producer E → ℕ → List (TopicProducer E) → Type 0
  AreNamed p pid [] = Unit
  AreNamed p pid (tp ∷ tps) =
      (tp.topic ≡ p.topic_name <> "-part-" <> decimal pid)
      × (tp.producer_name ≡ p.producer_name <> "-" <> decimal pid)
      × AreNamed p (pid + 1) tps

  pub new_topic_producer_lem :
      (p : Producer E) (topic name : String) (c : Client E)
      → (tp : TopicProducer E) × ((new_topic_producer p topic name c).0 ≡ ok tp)
        × (tp.topic ≡ topic)
        × (tp.producer_name ≡ name)
  unfolding new_topic_producer ◌>>=◌ pure gets
  new_topic_producer_lem p topic name c = (_, refl, refl, refl)

  new_topic_producers_lem :
      (p : Producer E) (n pid : ℕ) (c : Client E)
      → (tps : List (TopicProducer E)) × ((new_topic_producers p n pid c).0 ≡ ok tps)
        × (length tps ≡ n)
        × AreNamed p pid tps
  unfolding new_topic_producers partition_topic partition_name pure ◌>>=◌
  new_topic_producers_lem p zero pid c = ([], refl, refl, tt)
  new_topic_producers_lem p (suc n) pid c =
      let topic = partition_topic p.topic_name pid in
      let name = partition_name p.producer_name pid in
      let (tp, e, t, m) = new_topic_producer_lem p topic name c in
      let c' = (new_topic_producer p topic name c).1 in
      let (tps, f, l, h) = new_topic_producers_lem p n (pid + 1) c' in
      let step =
        bind_step (new_topic_producer p topic name)
          (λ tp. new_topic_producers p n (pid + 1) >>= λ rest. pure (tp ∷ rest)) c e in
      let rest = bind_step (new_topic_producers p n (pid + 1)) (λ rest. pure (tp ∷ rest)) c' f in
      (tp ∷ tps, ap (λ x. x.0) (step ∙ rest), ap suc l, (t, m, h))

  gather_first_ok :
      (r : Result ℕ) (tp : TopicProducer E) (rest : Result (List (TopicProducer E)))
      (out : List (TopicProducer E))
      → gather_first r tp rest ≡ ok out
      → (tps : List (TopicProducer E)) × (rest ≡ ok tps) × (out ≡ tp ∷ tps)
  gather_first_ok (ok a) tp (ok tps) out h = (tps, refl, cc)
  gather_first_ok (ok a) tp (err e) out h = cc
  gather_first_ok (ok a) tp pending out h = cc
  gather_first_ok (err e) tp rest out h = cc
  gather_first_ok pending tp (ok tps) out h = cc
  gather_first_ok pending tp (err e) out h = cc
  gather_first_ok pending tp pending out h = cc

  create_all-AreNamed :
      (p : Producer E) (pid : ℕ) (tps out : List (TopicProducer E)) (c : Client E)
      → (create_all tps c).0 ≡ ok out
      → AreNamed p pid tps
      → AreNamed p pid out × (length out ≡ length tps)
  unfolding create_all
  create_all-AreNamed p pid [] out c h n = ground arith
  create_all-AreNamed p pid (tp ∷ tps) out c h n =
      let s : Session E = record { this = tp; client = c } in
      let (rest, e, o) = gather_first_ok _ _ _ out h in
      let (m, l) = create_all-AreNamed p (pid + 1) tps rest (create s).1.client e n.2 in
      let k = create-Evolves.at s in rw o ((k.topic ∙ n.0, k.producer_name ∙ n.1, m), ap suc l)

  create_partitions-AreNamed :
      (p : Producer E) (n : ℕ) (c : Client E) {tps : List (TopicProducer E)}
      → p.partitions ≡ pos n
      → (create_partitions p c).0 ≡ ok tps
      → AreNamed p 0 tps × (length tps ≡ n)
  unfolding create_partitions
  create_partitions-AreNamed p n c {tps} many h =
      let (made, e, g, k) =
        bind_ok (new_topic_producers p (range_length p.partitions) 0) create_all c h in
      let (tps_0, f, l, a) = new_topic_producers_lem p (range_length p.partitions) 0 c in
      let same : made ≡ tps_0 = cc in
      let (b, m) = create_all-AreNamed p 0 tps_0 tps _ (rw same at k) a in
      (b, m ∙ l ∙ ap range_length many)

  -- A producer of `suc n` partitions is ready: it has a topic producer for each, and a router over
  -- them whose last message went to `last`.
  pub record IsReady (n last : ℕ) (p : Producer E) : Type 0 where
    pub partitions : p.partitions ≡ pos (suc n)
    pub message_router : p.message_router ≡ some (router_at n last)
    pub in_range : last < suc n
    pub count : length p.producers ≡ suc n

  -- The two ends of `create`.
  abbrev pub store : List (TopicProducer E) → Exec (Work E) (Unit {0})
  store tps = set_this λ q. record q { producers = tps }

  abbrev pub routed : Work E → Work E
  routed s = record s {
    this = record (s.this) { message_router = some (Router.new s.this.partitions) };
  }

  pub create_producer_split :
      (s : Work E)
      → create_producer s
        ≡ (if is_zero s.this.partitions
              then (on_client (create_single s.this) >>= store)
              else ((set_this
                    λ q. record q { message_router = some (Router.new s.this.partitions) })
                  >> (on_client (create_partitions s.this) >>= store)))
            s
  unfolding create_producer get_this
  create_producer_split s = refl

  pub create_producer_many :
      (s : Work E) (n : ℕ)
      → s.this.partitions ≡ pos (suc n)
      → create_producer s ≡ (on_client (create_partitions s.this) >>= store) (routed s)
  unfolding set_this modify on_client ◌>>=◌
  create_producer_many s n many =
      create_producer_split s
      ∙ ap
          (λ b.
            (if b
                then (on_client (create_single s.this) >>= store)
                else ((set_this
                      λ q. record q { message_router = some (Router.new s.this.partitions) })
                    >> (on_client (create_partitions s.this) >>= store)))
              s)
          (ap is_zero many)

  routed-IsReady :
      (s : Work E) (n : ℕ) (tps : List (TopicProducer E)) (c : Client E)
      → s.this.partitions ≡ pos (suc n)
      → length tps ≡ suc n
      → IsReady n n
          (record (routed s) {
            client = c;
            this = record ((routed s).this) { producers = tps };
          }).this
  routed-IsReady s n tps c many l = record {
    partitions = many;
    message_router = ap (λ z. some (Router.new z)) many ∙ ap some (new_lem n);
    in_range = omega arith;
    count = l;
  }

  -- After a `create` that returned, a producer of n partitions, n positive, is ready and starts with
  -- partition 0; its topic producer number i has the topic and the name with the suffix i.
  pub create_producer-IsReady :
      (s : Work E) (n : ℕ)
      → s.this.partitions ≡ pos (suc n)
      → (create_producer s).0 ≡ ok tt
      → IsReady n n (create_producer s).1.this
        × AreNamed s.this 0 (create_producer s).1.this.producers
  unfolding on_client set_this modify
  create_producer-IsReady s n many h =
      let split = create_producer_many s n many in
      let h' = rw split at h in
      let (tps, e, g, k) = bind_ok (on_client (create_partitions s.this)) store (routed s) h' in
      let (a, l) = create_partitions-AreNamed s.this (suc n) s.client many e in
      rw (split, g) (routed-IsReady s n tps (create_partitions s.this s.client).1 many l, a)

-- No two partitions of a topic have the same topic of their own.
pub partition_topic-inj :
    (topic : String) (i j : ℕ) → partition_topic topic i ≡ partition_topic topic j → i ≡ j
unfolding partition_topic
partition_topic-inj topic i j h =
    decimal-injective i j
      (append_cancel_left "-part-" (decimal i) (decimal j) (append_cancel_left topic _ _ h))
