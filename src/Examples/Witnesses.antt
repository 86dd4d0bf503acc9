-- ===== src/Examples/Witnesses.antt =====
-- The results on producers at concrete inputs.
use danube_py.Prelude.{
  ℕ, ◌+◌, ◌%◌, ◌<◌, pos, true, false, none, some, [], ◌∷◌, ◌≡◌, refl, arith, length, get_elem?,
}
use danube_py.Errors.{ok}
use danube_py.Exec.{◌>>◌}
use danube_py.Exec.Steps.{Steps}
use danube_py.Env.Api.{producer}
use danube_py.Client.{HealthTask, cancelled, finished, running, update_task}
use danube_py.Connection.{strip_scheme}
use danube_py.Connection.Prefix.{drop_prefix?}
use danube_py.Health.{health_round}
use danube_py.Health.Silence.{stop_silences}
use danube_py.TopicProducer.Create.Watched.{closed_topic_unwatched, replaced_task_stays}
use danube_py.TopicProducer.Create.Adopted.{Adopted}
use danube_py.TopicProducer.Create.Numbers.{HasCounted, create-HasCounted}
use danube_py.TopicProducer.Relocated.{followed, lookup_new_broker_lem}
use danube_py.Lookup.{lookup_topic}
use danube_py.Retry
use danube_py.Retry.{insert_proxy_header, linear_backoff, calculate_backoff}
use danube_py.Retry.Backoff.{new-IsValid}
use danube_py.Router.{fnv1a_hash}
use danube_py.TopicProducer.{TopicProducer, Session, lookup_new_broker}
use danube_py.TopicProducer.Create.{create, create_loop, stop}
use danube_py.TopicProducer.Create.Rounds.{creating}
use danube_py.TopicProducer.Create.Rounds.Attempts.{create_attempts, create_rounds}
use danube_py.Retry.Attempts.Tried.{Tried}
use danube_py.TopicProducer.Send
use danube_py.TopicProducer.Send.Numbers.{send_this}
use danube_py.Growth.Session.{Evolves}
use danube_py.Growth.Work.{Persists, deliver-Persists}
use danube_py.Producer.{Work}
use danube_py.Producer.Create.{create_producer}
use danube_py.Producer.Create.Partitions.{
  IsReady, AreNamed, create_producer-IsReady, partition_topic-inj,
}
use danube_py.Producer.Create.Partitions.Single.{create_producer_single}
use danube_py.Producer.Send.{send, send_with_key, send_loop, deliver}
use danube_py.Producer.Send.Routing.{
  retry_manager, routed_to, send_next_partition, send_with_key_partition, after_sends,
  after_sends-IsReady,
}
use danube_py.Examples.World.{clock_env, client, session, work}

created_run : (create_producer (work 3)).0 ≡ ok tt
unfolding create_producer
created_run = refl

create_producer-IsReady_example :
    IsReady 2 2 (create_producer (work 3)).1.this
    × AreNamed (work 3).this 0 (create_producer (work 3)).1.this.producers
create_producer-IsReady_example = create_producer-IsReady (work 3) 2 refl created_run

abbrev created : Work clock_env
created = (create_producer (work 3)).1

created-IsReady : IsReady 2 2 created.this
created-IsReady = (create_producer-IsReady (work 3) 2 refl created_run).0

send_next_partition_example :
    (send 5 (1 ∷ []) none created
      ≡ send_loop
          (retry_manager created.this)
          (pos 0)
          (1 ∷ [])
          none
          none
          5
          0
          (routed_to 2 0 created))
    × IsReady 2 0 (send 5 (1 ∷ []) none created).1.this
send_next_partition_example = send_next_partition 5 2 2 (1 ∷ []) none created created-IsReady

abbrev started : Session clock_env
started = (create session).1

started_run : started.this.stub ≡ some ("b1:6650", true)
unfolding create drop_prefix? strip_scheme
started_run = refl

abbrev stopped_task : HealthTask clock_env
stopped_task = record {
  channel = ("b1:6650", true);
  connect_url = "http://b1:6650";
  broker_addr = "http://b1:6650";
  proxy = false;
  client_type = producer;
  client_id = 7;
  stop_event = 0;
  status = cancelled;
}

stopped_run : get_elem? (stop started).1.client.tasks 0 ≡ some stopped_task
unfolding create stop drop_prefix? strip_scheme
stopped_run = refl

started_events : started.this.stop_event < length started.client.events
unfolding create
started_events = omega arith

send_with_key_partition_example :
    (send_with_key 5 (1 ∷ []) none "a" created
      ≡ send_loop
          (retry_manager created.this)
          (pos (fnv1a_hash "a" % 3))
          (1 ∷ [])
          none
          (some "a")
          5
          0
          created)
    × IsReady 2 2 (send_with_key 5 (1 ∷ []) none "a" created).1.this
send_with_key_partition_example =
    send_with_key_partition 5 2 2 (1 ∷ []) none "a" created created-IsReady

after_sends-IsReady_example :
    IsReady 2 ((2 + 2) % 3) (after_sends 5 ((1 ∷ [], none) ∷ (2 ∷ [], none) ∷ []) created).this
after_sends-IsReady_example =
    after_sends-IsReady 5 2 2 ((1 ∷ [], none) ∷ (2 ∷ [], none) ∷ []) created created-IsReady

single_run : (create_producer (work 0)).0 ≡ ok tt
unfolding create_producer
single_run = refl

create_producer_single_example :
    (tp : TopicProducer clock_env) × ((create_producer (work 0)).1.this.producers ≡ tp ∷ [])
    × (tp.topic ≡ "/default/t")
    × (tp.producer_name ≡ "p")
    × ((create_producer (work 0)).1.this.message_router ≡ none)
create_producer_single_example = create_producer_single (work 0) refl single_run

partition_topic-inj_example : ◌≡◌ {A = ℕ} 3 3
partition_topic-inj_example = partition_topic-inj "/default/t" 3 3 refl

create_attempts_example : Tried creating 2 0 session (create session)
unfolding Retry.new
create_attempts_example = create_attempts session (new-IsValid (pos 2) (pos 0) (pos 0))

create_rounds_example : create session ≡ (lookup_new_broker >> create_loop 9 0) session
unfolding Retry.new
create_rounds_example = create_rounds 9 session (omega arith)

deliver-Persists_example : Steps (Persists {E = clock_env}) (deliver 5 (pos 0) (1 ∷ []) none none)
deliver-Persists_example = deliver-Persists {E = clock_env} 5 (pos 0) (1 ∷ []) none none

stop_silences_example : (health_round 0 (stop started).1.client).1.world ≡ started.client.world
unfolding create
stop_silences_example = stop_silences started 0 stopped_task started_events stopped_run refl

send_this_example :
    (Send.send (1 ∷ []) none none started).1.this
    ≡ record (started.this) { request_id = started.this.request_id + 1 }
send_this_example = send_this (1 ∷ []) none none started ("b1:6650", true) started_run

-- A session whose topic the broker has closed.
abbrev closed_session : Session clock_env
closed_session = record session { client = record (session.client) { events = true ∷ [] } }

abbrev running_task : HealthTask clock_env
running_task = record stopped_task { status = running }

closed_run : (create closed_session).0 ≡ ok 7
unfolding create
closed_run = refl

closed_topic_unwatched_example :
    let t = (create closed_session).1 in
    (i : ℕ) × (t.this.health_task ≡ some i)
    × (health_round i t.client
        ≡ (ok tt, record (t.client) { tasks = update_task (λ _. finished) t.client.tasks i }))
closed_topic_unwatched_example = closed_topic_unwatched closed_session refl closed_run

-- A session that holds a running task.
abbrev watched_session : Session clock_env
watched_session = record session {
  this = record (session.this) { health_task = some 0 };
  client = record (session.client) { tasks = running_task ∷ [] };
}

watched_run : (create watched_session).0 ≡ ok 7
unfolding create
watched_run = refl

replaced_task_stays_example :
    let c = (create watched_session).1.client in
    (i : ℕ) × (n : HealthTask clock_env) × ((create watched_session).1.this.health_task ≡ some i)
    × (0 < i)
    × (get_elem? c.tasks i ≡ some n)
    × (n.status ≡ running)
    × (get_elem? c.tasks 0 ≡ some running_task)
replaced_task_stays_example =
    replaced_task_stays watched_session 0 running_task refl refl refl watched_run

create-HasCounted_example :
    Evolves session (create session).1
    × HasCounted (create session).0 1 (create session).1.this.request_id
create-HasCounted_example = create-HasCounted session

lookup_new_broker_lem_example :
    lookup_new_broker session
    ≡ followed
        (lookup_topic session.this.connect_url "/default/t" client).0
        (lookup_topic session.this.connect_url "/default/t" client).1
        session.this
lookup_new_broker_lem_example = lookup_new_broker_lem session
