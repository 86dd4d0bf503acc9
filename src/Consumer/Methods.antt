-- ===== src/Consumer/Methods.antt =====
-- The methods of `Consumer`, and what the event loop does for its tasks.
pub mod Keyed
pub mod Ack
use danube_py.Prelude.{
  ℕ, String, Option, none, some, List, [], ◌∷◌, ◌++◌, length, get_elem?, set, map,
}
use danube_py.Errors.{danube_error, ok}
use danube_py.Exec.{Exec, pure, raise, gets, modify, zoom, ◌>>=◌, ◌>>◌}
use danube_py.Env.{Env}
use danube_py.Env.Api.{StreamMessage}
use danube_py.Client.{Client, running}
use danube_py.Lookup.{topic_partitions}
use danube_py.Retry
use danube_py.TopicConsumer
use danube_py.TopicConsumer.{TopicConsumer, Subscriber}
use danube_py.TopicConsumer.Subscribe
use danube_py.TopicConsumer.Receive.{send_ack, send_nack}
use danube_py.Consumer.{sub_type_value, opening, ReceiveTask, Consumer, Group}
use danube_py.Consumer.Dict.{gather_results, dict_of, find_entry}

module _ {E : Env} where
  unfoldable pub get_this : {A : Type 0} → (Consumer E → A) → Exec (Group E) A
  unfolding gets
  get_this f = gets λ g. f g.this

  unfoldable pub set_this : (Consumer E → Consumer E) → Exec (Group E) (Unit {0})
  unfolding modify
  set_this f = modify λ g. record g { this = f g.this }

  unfoldable pub on_client : {A : Type 0} → Exec (Client E) A → Exec (Group E) A
  unfolding zoom
  on_client = zoom (λ g. g.client) (λ c g. record g { client = c })

  abbrev pub put_member : ℕ → Subscriber E → Group E → Group E
  put_member i t g = record g {
    topic_consumers = set g.topic_consumers i t.this;
    client = t.client;
  }

  -- A call on the topic consumer at a place.
  unfoldable pub on_member :
      {A : Type 0} → ℕ → TopicConsumer E → Exec (Subscriber E) A → Exec (Group E) A
  unfolding zoom
  on_member i tc m = zoom (λ g. record { this = tc; client = g.client }) (put_member i) m

  -- `TopicConsumer(...)`, which gets the next place.
  unfoldable pub add_member : String → Exec (Group E) (ℕ × TopicConsumer E)
  unfolding ◌>>=◌ pure gets modify get_this on_client TopicConsumer.new
  add_member partition = do
    c ← get_this λ c. c
    tc ← on_client (
        TopicConsumer.new partition c.consumer_name c.subscription
          (sub_type_value c.subscription_type) c.key_filters c.options.max_retries
          c.options.base_backoff_ms c.options.max_backoff_ms)
    place ← gets λ g. length g.topic_consumers
    modify λ g. record g { topic_consumers = g.topic_consumers ++ (tc ∷ []) }
    pure (place, tc)

  unfoldable pub subscribe_one : String → Exec (Group E) (String × ℕ)
  unfolding ◌>>=◌ pure add_member on_member Subscribe.subscribe
  subscribe_one partition = do
    member ← add_member partition
    on_member member.0 member.1 Subscribe.subscribe
    pure (partition, member.0)

  -- All coroutines run to their end, also behind one that raised; here one after the other.
  unfoldable pub subscribe_all : List String → Exec (Group E) (List (String × ℕ))
  unfolding subscribe_one
  subscribe_all [] g = (ok [], g)
  subscribe_all (partition ∷ partitions) g =
      let (r, g') = subscribe_one partition g in
      let (rest, g'') = subscribe_all partitions g' in (gather_results r rest, g'')

  abbrev pub no_partitions : List (String × ℕ) → Exec (Group E) (Unit {0})
  no_partitions [] = raise (danube_error "no partitions found")
  no_partitions (_ ∷ _) = pure tt

  unfoldable pub subscribe : Exec (Group E) (Unit {0})
  unfolding ◌>>=◌ pure raise gets get_this set_this on_client topic_partitions subscribe_all
  subscribe = do
    uri ← gets λ g. g.client.uri
    topic ← get_this λ c. c.topic_name
    partitions ← on_client (topic_partitions uri topic)
    results ← subscribe_all partitions
    set_this λ c. record c { consumers = dict_of [] results }
    no_partitions (dict_of [] results)

  abbrev pub receive_task : Consumer E → ℕ → String × ℕ → ReceiveTask E
  receive_task c queue entry = record {
    consumer = entry.1;
    queue = queue;
    retry_manager =
        Retry.new c.options.max_retries c.options.base_backoff_ms c.options.max_backoff_ms;
    phase = opening 0;
    status = running;
  }

  -- The queue is a place, too.
  unfoldable pub receive : Exec (Group E) ℕ
  unfolding ◌>>=◌ pure gets modify set_this Retry.new
  receive = do
    queue ← gets λ g. length g.queues
    modify λ g. record g { queues = g.queues ++ ([] ∷ []) }
    set_this λ c. record c { tasks = c.tasks ++ map (receive_task c queue) c.consumers }
    pure queue

  abbrev pub member? : String → Group E → Option (ℕ × TopicConsumer E)
  member? topic_name g = elim (find_entry topic_name g.this.consumers) [
    | none ↦ none
    | some i ↦ elim (get_elem? g.topic_consumers i) [ none ↦ none | some tc ↦ some (i, tc) ]
  ]

  abbrev pub ack_by :
      StreamMessage → String → Option (ℕ × TopicConsumer E) → Exec (Group E) (Unit {0})
  ack_by message subscription none = pure tt
  ack_by message subscription (some (i, tc)) =
      on_member i tc (send_ack message.request_id message.msg_id subscription) >> pure tt

  unfoldable pub ack : StreamMessage → Exec (Group E) (Unit {0})
  unfolding ◌>>=◌ pure gets on_member send_ack
  ack message = (gets λ g. g) >>= λ g.
      ack_by message g.this.subscription (member? message.msg_id.topic_name g)

  abbrev pub nack_by :
      StreamMessage
      → Option ℕ
      → Option String
      → String
      → Option (ℕ × TopicConsumer E)
      → Exec (Group E) (Unit {0})
  nack_by message delay_ms reason subscription none = pure tt
  nack_by message delay_ms reason subscription (some (i, tc)) =
      on_member i tc (send_nack message.request_id message.msg_id subscription delay_ms reason)
      >> pure tt

  unfoldable pub nack : StreamMessage → Option ℕ → Option String → Exec (Group E) (Unit {0})
  unfolding ◌>>=◌ pure gets on_member send_nack
  nack message delay_ms reason = (gets λ g. g) >>= λ g.
      nack_by message delay_ms reason g.this.subscription (member? message.msg_id.topic_name g)
