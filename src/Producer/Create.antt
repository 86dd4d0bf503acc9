-- ===== src/Producer/Create.antt =====
-- `Producer.create` and `close`.
pub mod Partitions
pub mod Accepted
use danube_py.Prelude.{
  ℕ, zero, suc, ◌+◌, String, ◌<>◌, decimal, ℤ, pos, negsuc, is_zero, Option, none, some, List, [],
  ◌∷◌, if◌then◌else◌,
}
use danube_py.Errors.{Result, ok, err, pending}
use danube_py.Exec.{Exec, pure, ◌>>=◌, ◌>>◌}
use danube_py.Env.{Env}
use danube_py.Client.{Client}
use danube_py.Router
use danube_py.TopicProducer
use danube_py.TopicProducer.{TopicProducer, Session}
use danube_py.TopicProducer.Create.{create, stop}
use danube_py.Producer.{Producer, Work, get_this, set_this, on_client}

unfoldable pub partition_topic : String → ℕ → String
partition_topic topic pid = topic <> "-part-" <> decimal pid

unfoldable pub partition_name : String → ℕ → String
partition_name name pid = name <> "-" <> decimal pid

-- The length of `range(n)`
abbrev pub range_length : ℤ → ℕ
range_length (pos n) = n
range_length (negsuc n) = 0

module _ {E : Env} where
  unfoldable pub new_topic_producer :
      Producer E → String → String → Exec (Client E) (TopicProducer E)
  unfolding TopicProducer.new
  new_topic_producer p topic name =
      TopicProducer.new topic name p.schema_ref p.dispatch_strategy p.options.max_retries
        p.options.base_backoff_ms p.options.max_backoff_ms

  -- The producers of the partitions from `pid` on.
  unfoldable pub new_topic_producers : Producer E → ℕ → ℕ → Exec (Client E) (List (TopicProducer E))
  unfolding ◌>>=◌ pure new_topic_producer
  new_topic_producers p zero pid = pure []
  new_topic_producers p (suc n) pid = do
    tp ←
        new_topic_producer p (partition_topic p.topic_name pid) (partition_name p.producer_name pid)
    rest ← new_topic_producers p n (pid + 1)
    pure (tp ∷ rest)

  -- What `asyncio.gather` makes of the first result and of the others: an exception is raised as
  -- soon as there is one.
  abbrev pub gather_first :
      Result ℕ → TopicProducer E → Result (List (TopicProducer E)) → Result (List (TopicProducer E))
  gather_first (ok _) tp (ok tps) = ok (tp ∷ tps)
  gather_first (ok _) tp (err e) = err e
  gather_first (ok _) tp pending = pending
  gather_first (err e) tp rest = err e
  gather_first pending tp (err e) = err e
  gather_first pending tp _ = pending

  -- All coroutines run to their end, also behind one that raised; here one after the other.
  unfoldable pub create_all : List (TopicProducer E) → Exec (Client E) (List (TopicProducer E))
  unfolding create
  create_all [] c = (ok [], c)
  create_all (tp ∷ tps) c =
      let (r, s) = create (record { this = tp; client = c }) in
      let (rest, c') = create_all tps s.client in (gather_first r s.this rest, c')

  unfoldable pub create_single : Producer E → Exec (Client E) (List (TopicProducer E))
  unfolding ◌>>=◌ new_topic_producer create_all
  create_single p = do tp ← new_topic_producer p p.topic_name p.producer_name; create_all (tp ∷ [])

  unfoldable pub create_partitions : Producer E → Exec (Client E) (List (TopicProducer E))
  unfolding ◌>>=◌ new_topic_producers create_all
  create_partitions p = do tps ← new_topic_producers p (range_length p.partitions) 0; create_all tps

  -- `create` of the class. The router is there even if a partition fails; the list of producers is
  -- replaced only if none does.
  unfoldable pub create_producer : Exec (Work E) (Unit {0})
  unfolding ◌>>=◌ pure get_this set_this on_client create_single create_partitions Router.new
  create_producer = (get_this λ p. p) >>= λ p.
      if is_zero p.partitions
      then (on_client (create_single p) >>= λ tps. set_this λ q. record q { producers = tps })
      else ((set_this λ q. record q { message_router = some (Router.new p.partitions) })
          >> (on_client (create_partitions p) >>= λ tps.
              set_this λ q. record q { producers = tps }))

  unfoldable pub stop_all : List (TopicProducer E) → Exec (Client E) (List (TopicProducer E))
  unfolding stop
  stop_all [] c = (ok [], c)
  stop_all (tp ∷ tps) c =
      let (r, s) = stop (record { this = tp; client = c }) in
      let (rest, c') = stop_all tps s.client in (gather_first (ok 0) s.this rest, c')

  unfoldable pub close : Exec (Work E) (Unit {0})
  unfolding ◌>>=◌ get_this set_this on_client stop_all
  close = do
    tps ← get_this λ p. p.producers
    stopped ← on_client (stop_all tps)
    set_this λ p. record p { producers = stopped }
