-- ===== src/Producer.antt =====
-- danube/producer.py: a producer of a topic with or without partitions.
pub mod Builder
pub mod Create
pub mod Send
use danube_py.Prelude.{
  ℕ, zero, suc, ◌+◌, ◌-◌, String, ◌<>◌, ℤ, pos, negsuc, is_pos, Bool, true, false, Option, none,
  some, List, [], ◌∷◌, ltb, if◌then◌else◌, length, get_elem?, set,
}
use danube_py.Errors.{Error, index_error}
use danube_py.Exec.{Exec, pure, raise, gets, modify, zoom, or_raise, ◌>>=◌, ◌>>◌}
use danube_py.Env.{Env}
use danube_py.Env.Api.{SchemaReference}
use danube_py.Client.{Client}
use danube_py.Router
use danube_py.Router.{MessageRouter}
use danube_py.TopicProducer.{TopicProducer, Session, DispatchStrategy}

pub record ProducerOptions : Type 0 where
  pub max_retries : ℤ
  pub base_backoff_ms : ℤ
  pub max_backoff_ms : ℤ

module _ (E : Env) where
  pub record Producer : Type 0 where
    pub topic_name : String
    pub producer_name : String
    pub partitions : ℤ
    pub schema_ref : Option SchemaReference
    pub dispatch_strategy : DispatchStrategy
    pub options : ProducerOptions
    pub producers : List (TopicProducer E)
    pub message_router : Option MessageRouter

  -- The producer with the client that it shares.
  pub record Work : Type 0 where
    pub this : Producer
    pub client : Client E

-- Python's index into a list of a length: from the end if it is negative.
abbrev pub place? : ℤ → ℕ → Option ℕ
place? (pos i) n = if ltb i n then some i else none
place? (negsuc i) n = if ltb i n then some (n - suc i) else none

module _ {E : Env} where
  unfoldable pub get_this : {A : Type 0} → (Producer E → A) → Exec (Work E) A
  unfolding gets
  get_this f = gets λ s. f s.this

  unfoldable pub set_this : (Producer E → Producer E) → Exec (Work E) (Unit {0})
  unfolding modify
  set_this f = modify λ s. record s { this = f s.this }

  unfoldable pub on_client : {A : Type 0} → Exec (Client E) A → Exec (Work E) A
  unfolding zoom
  on_client = zoom (λ s. s.client) (λ c s. record s { client = c })

  -- A call on the router.
  abbrev put_router : MessageRouter → Work E → Work E
  put_router r s = record s { this = record (s.this) { message_router = some r } }

  unfoldable pub on_router : {A : Type 0} → MessageRouter → Exec MessageRouter A → Exec (Work E) A
  unfolding zoom
  on_router router = zoom (λ s. router) put_router

  -- The list of topic producers after a call on the one at a place.
  abbrev pub put_session : ℕ → Session E → Work E → Work E
  put_session i t s = record s {
    this = record (s.this) { producers = set s.this.producers i t.this };
    client = t.client;
  }

  unfoldable pub on_item : {A : Type 0} → ℕ → TopicProducer E → Exec (Session E) A → Exec (Work E) A
  unfolding zoom
  on_item i p = zoom (λ s. record { this = p; client = s.client }) (put_session i)

  abbrev pub item? : Producer E → ℤ → Option (ℕ × TopicProducer E)
  item? p partition_id = elim (place? partition_id (length p.producers)) [
    | none ↦ none
    | some i ↦ elim (get_elem? p.producers i) [ none ↦ none | some tp ↦ some (i, tp) ]
  ]

  abbrev pub on_found :
      {A : Type 0} → Option (ℕ × TopicProducer E) → Exec (Session E) A → Exec (Work E) A
  on_found none m = raise index_error
  on_found (some (i, tp)) m = on_item i tp m

  -- `self._producers[partition_id]` and a call on it.
  unfoldable pub on_producer : {A : Type 0} → ℤ → Exec (Session E) A → Exec (Work E) A
  unfolding ◌>>=◌ pure raise get_this on_item
  on_producer partition_id m = (get_this λ p. item? p partition_id) >>= λ found. on_found found m

  abbrev pub pick : Producer E → Option MessageRouter → Exec MessageRouter ℤ → Exec (Work E) ℤ
  pick p none m = pure (pos 0)
  pick p (some router) m = if is_pos p.partitions then on_router router m else pure (pos 0)

  unfoldable pub select_partition : Exec (Work E) ℤ
  unfolding ◌>>=◌ pure get_this on_router Router.round_robin
  select_partition = (get_this λ p. p) >>= λ p. pick p p.message_router Router.round_robin

  unfoldable pub select_partition_for_key : String → Exec (Work E) ℤ
  unfolding ◌>>=◌ pure get_this on_router Router.key_route
  select_partition_for_key routing_key =
      (get_this λ p. p) >>= λ p. pick p p.message_router (Router.key_route routing_key)
