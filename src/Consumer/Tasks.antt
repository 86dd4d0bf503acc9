-- ===== src/Consumer/Tasks.antt =====
-- `Consumer.close`, and what the event loop does for the tasks of a consumer.
pub mod Closed
pub mod Kept
use danube_py.Prelude.{
  ℕ, zero, suc, ◌+◌, String, Bool, Option, none, some, List, [], ◌∷◌, ◌++◌, length, get_elem?, set,
  str_eq, map, if◌then◌else◌,
}
use danube_py.Errors.{Error, danube_error, Result, ok, err, pending}
use danube_py.Exec.{Exec, pure, raise, gets, modify, zoom, ◌>>=◌, ◌>>◌}
use danube_py.Env.{Env}
use danube_py.Env.Api.{StreamMessage}
use danube_py.Client.{Client, TaskStatus, running, finished, cancelled, cancel, outside, set_event}
use danube_py.Lookup.{topic_partitions}
use danube_py.Retry
use danube_py.TopicConsumer
use danube_py.TopicConsumer.{TopicConsumer, Subscriber}
use danube_py.TopicConsumer.Subscribe
use danube_py.TopicConsumer.Receive.{send_ack, send_nack}
use danube_py.Consumer.{
  graceful_close_delay_ms, sub_type_value, Phase, opening, ended, Feed, ReceiveTask, Consumer,
  Group,
}
use danube_py.Consumer.Dict.{gather_results, dict_of, find_entry}
use danube_py.Consumer.Loop.{receive_step}
use danube_py.Consumer.Methods.{get_this, set_this, on_client, on_member}

module _ {E : Env} where
  abbrev pub stop_found : ℕ → Option (TopicConsumer E) → Exec (Group E) (Unit {0})
  stop_found i none = pure tt
  stop_found i (some tc) = on_member i tc Subscribe.stop

  unfoldable pub stop_members : List (String × ℕ) → Exec (Group E) (Unit {0})
  unfolding ◌>>=◌ pure gets on_member Subscribe.stop
  stop_members [] = pure tt
  stop_members ((_, i) ∷ entries) = (gets λ g. get_elem? g.topic_consumers i) >>= λ found.
      stop_found i found >> stop_members entries

  abbrev pub cancel_receive : ReceiveTask E → ReceiveTask E
  cancel_receive t = record t { status = cancel t.status }

  unfoldable pub close : Exec (Group E) (Unit {0})
  unfolding ◌>>=◌ modify get_this set_this on_client set_event outside stop_members
  close = do
    c ← get_this λ c. c
    on_client (set_event c.shutdown)
    stop_members c.consumers
    set_this λ c. record c { tasks = map cancel_receive c.tasks }
    on_client (outside (modify (E.sleep_ms graceful_close_delay_ms)))

  -- A task after a step of its loop: a loop that has returned or raised ends the task.
  abbrev pub after_step : Result (Phase E) → ReceiveTask E → ReceiveTask E
  after_step (ok ended) t = record t { phase = ended; status = finished }
  after_step (ok phase) t = record t { phase = phase }
  after_step (err e) t = record t { status = finished }
  after_step pending t = t

  abbrev pub put_step : ℕ → ReceiveTask E → Result (Phase E) × Feed E → Group E → Group E
  put_step i t (r, s) g = record g {
    this = record (g.this) { tasks = set g.this.tasks i (after_step r t) };
    client = s.client;
    topic_consumers = set g.topic_consumers t.consumer s.this;
    queues = set g.queues t.queue s.queue;
  }

  abbrev pub step_with :
      ℕ → ReceiveTask E → Option (TopicConsumer E) → Option (List StreamMessage) → Group E → Group E
  step_with i t (some tc) (some queue) g =
      put_step i t
        (receive_step t.retry_manager g.this.shutdown t.phase
          (record { this = tc; client = g.client; queue = queue }))
        g
  step_with i t _ _ g = g

  abbrev pub step_running : ℕ → ReceiveTask E → TaskStatus → Group E → Group E
  step_running i t running g =
      step_with i t (get_elem? g.topic_consumers t.consumer) (get_elem? g.queues t.queue) g
  step_running i t finished g = g
  step_running i t cancelled g = g

  abbrev pub step_task : ℕ → Option (ReceiveTask E) → Group E → Group E
  step_task i none g = g
  step_task i (some t) g = step_running i t t.status g

  -- What task `i` does when the event loop wakes it up.
  unfoldable pub wake : ℕ → Group E → Group E
  unfolding receive_step
  wake i g = step_task i (get_elem? g.this.tasks i) g
