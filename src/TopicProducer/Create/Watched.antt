-- ===== src/TopicProducer/Create/Watched.antt =====
-- The health-check tasks of a producer that is created, perhaps not for the first time.
use danube_py.Prelude.{
  ℕ, suc, ◌≤◌, ◌<◌, true, false, Option, none, some, [], ◌∷◌, length, length-append, get_or,
  get_elem?, get_elem?-append_length, get_elem?-append, lt_of_get_elem?, ◌≡◌, refl, sym, ap, ◌∙◌,
  subst, arith,
}
use danube_py.Errors.{ok}
use danube_py.Exec.{Exec, pure, gets, modify, ◌>>=◌, ◌>>◌}
use danube_py.Exec.Steps.{Steps, Steps-bind}
use danube_py.Exec.Ensures.{EndsWell, Ensures, ensured, Ensures-last, Ensures-first}
use danube_py.Env.{Env}
use danube_py.Env.Api.{ProducerResponse}
use danube_py.Client.{HealthTask, running, finished, update_task}
use danube_py.Health.{health_round}
use danube_py.Health.Recreated.{begun}
use danube_py.Health.Silence.{round_of_set_event}
use danube_py.TopicProducer.{Session, get_this, set_this}
use danube_py.TopicProducer.Create.{register, begin_health_check, adopt, adopt_schema, create}
use danube_py.Exec.Inversion.{bind_cases}
use danube_py.Env.Api.{SchemaReference}
use danube_py.TopicProducer.Schema.{resolve_schema_metadata}
use danube_py.TopicProducer.Schema.Asking.{resolve_schema_metadata-Asks}
use danube_py.TopicProducer.Create.Ending.{Prepares, try_create-Ensures, create-Ensures}
use danube_py.TopicProducer.Create.Undisturbed.{
  Undisturbed, Undisturbed-preorder, create-Undisturbed, get_this-Undisturbed, connect-Undisturbed,
  request_producer-Undisturbed, set_producer_id-Undisturbed, adopt_schema-Undisturbed,
  back_off-Undisturbed, lookup_new_broker-Undisturbed,
}

module _ {E : Env} where
  abbrev HasTasks : ℕ → Session E → Type 0
  HasTasks n s = n ≤ length s.client.tasks

  -- The task that the producer holds is a running one with its event, behind the first `n` tasks.
  record IsWatched (n : ℕ) (s : Session E) : Type 0 where
    i : ℕ
    task : HealthTask E
    held : s.this.health_task ≡ some i
    found : get_elem? s.client.tasks i ≡ some task
    live : task.status ≡ running
    own : task.stop_event ≡ s.this.stop_event
    later : n ≤ i

  Undisturbed-HasTasks : (n : ℕ) (s t : Session E) → Undisturbed s t → HasTasks n s → HasTasks n t
  Undisturbed-HasTasks n s t u h =
      let e = ap length u.client.tasks ∙ length-append s.client.tasks u.client.more in omega arith

  kept :
      {A : Type 0} (n : ℕ) (m : Exec (Session E) A)
      → Steps Undisturbed m
      → (s : Session E) → HasTasks n s
      → HasTasks n (m s).1
  kept n m h s p = Undisturbed-HasTasks n s (m s).1 (h.at s) p

  begin_health_check-Ensures : (n : ℕ) → Ensures (HasTasks n) (IsWatched n) begin_health_check
  begin_health_check-Ensures n = record {
    at = λ s p.
        let (d, t, e, tasks, live, own) = begun s in
        let i = length d.tasks in
        let same = ap length tasks in
        let more = length-append d.tasks (t ∷ []) in
        subst (EndsWell (HasTasks n) (IsWatched n)) (sym e) (
          omega arith,
          record {
            i = i;
            task = t;
            held = refl;
            found = get_elem?-append_length d.tasks t [];
            live = live;
            own = own;
            later = omega arith;
          },
        );
  }

  IsWatched-still :
      (n : ℕ) (s t : Session E)
      → Undisturbed s t
      → t.this.health_task ≡ s.this.health_task
      → IsWatched n s
      → IsWatched n t
  IsWatched-still n s t u same w = record {
    i = w.i;
    task = w.task;
    held = same ∙ w.held;
    found =
        ap (λ ts. get_elem? ts w.i) u.client.tasks
        ∙ get_elem?-append s.client.tasks u.client.more w.i w.found;
    live = w.live;
    own = w.own ∙ sym u.stop_event;
    later = w.later;
  }

  adopt_health_task :
      (ref : Option SchemaReference) (s : Session E)
      → (adopt ref s).1.this.health_task ≡ s.this.health_task
  unfolding set_this modify pure
  adopt_health_task none s = refl
  adopt_health_task (some ref) s =
      let same = ap (λ p. p.health_task) (resolve_schema_metadata-Asks.at s).this in
      bind_cases (λ x. x.1.this.health_task ≡ s.this.health_task) resolve_schema_metadata _ s
        (λ r e. same) (λ x e. same) (λ e. same)

  adopt_schema_health_task :
      (s : Session E) → (adopt_schema s).1.this.health_task ≡ s.this.health_task
  unfolding adopt_schema get_this gets ◌>>=◌
  adopt_schema_health_task s = adopt_health_task s.this.schema_ref s

  -- The rest of `register`.
  abbrev rest : Exec (Session E) ℕ
  rest = adopt_schema >> get_this λ p. p.producer_id

  rest-Undisturbed : Steps Undisturbed rest
  rest-Undisturbed =
      Steps-bind Undisturbed-preorder adopt_schema _ adopt_schema-Undisturbed
        λ _. get_this-Undisturbed λ p. p.producer_id

  rest_health_task : (s : Session E) → (rest s).1.this.health_task ≡ s.this.health_task
  unfolding get_this gets
  rest_health_task s =
      let same = adopt_schema_health_task s in
      bind_cases (λ x. x.1.this.health_task ≡ s.this.health_task) adopt_schema _ s (λ r e. same)
        (λ x e. same) (λ e. same)

  register-Ensures :
      (n : ℕ) (resp : ProducerResponse) → Ensures (HasTasks n) (IsWatched n) (register resp)
  unfolding register
  register-Ensures n resp =
      Ensures-last (set_this λ p. record p { producer_id = resp.producer_id })
        (λ _. begin_health_check >> rest) (kept n _ (set_producer_id-Undisturbed resp.producer_id))
        λ _.
          Ensures-first begin_health_check (λ _. rest) (begin_health_check-Ensures n)
            (λ _. kept n rest rest-Undisturbed)
            λ _ s p w. IsWatched-still n s (rest s).1 (rest-Undisturbed.at s) (rest_health_task s) w

  prepares : Prepares (Undisturbed {E = E})
  prepares = record {
    looks_up = lookup_new_broker-Undisturbed;
    connects = connect-Undisturbed;
    requests = request_producer-Undisturbed;
    backs_off = back_off-Undisturbed;
    reads = get_this-Undisturbed;
  }

  create-IsWatched :
      (n : ℕ) (s : Session E) {a : ℕ}
      → n ≤ length s.client.tasks
      → (create s).0 ≡ ok a
      → IsWatched n (create s).1
  create-IsWatched n s h e =
      let keep = Undisturbed-HasTasks n in
      ensured create s
        (create-Ensures prepares keep (try_create-Ensures prepares keep (register-Ensures n))) h e

  -- After the broker has closed the topic, which sets the producer's stop event, a `create` of the
  -- producer that returns has not cleared the event: the health-check task that the producer then
  -- holds ends in its next round, and asks the broker nothing.
  pub closed_topic_unwatched :
      (s : Session E) {a : ℕ}
      → get_or s.client.events s.this.stop_event false ≡ true
      → (create s).0 ≡ ok a
      → let t = (create s).1 in
        (i : ℕ) × (t.this.health_task ≡ some i)
        × (health_round i t.client
            ≡ (ok tt, record (t.client) { tasks = update_task (λ _. finished) t.client.tasks i }))
  closed_topic_unwatched s closed e =
      let t = (create s).1 in
      let u = create-Undisturbed.at s in
      let w = create-IsWatched 0 s (omega arith) e in
      (
        w.i,
        w.held,
        round_of_set_event t.client w.i w.task w.found
            (ap (λ j. get_or t.client.events j false) (w.own ∙ u.stop_event)
              ∙ ap (λ es. get_or es s.this.stop_event false) u.client.events
              ∙ closed)
            w.live,
      )

  -- If a producer that holds a running health-check task is created again, and `create` returns, then
  -- the producer holds a new task, with another number, which runs; and the task that it held until
  -- then is still there and still runs.
  pub replaced_task_stays :
      (s : Session E) (old : ℕ) (t : HealthTask E) {a : ℕ}
      → s.this.health_task ≡ some old
      → get_elem? s.client.tasks old ≡ some t
      → t.status ≡ running
      → (create s).0 ≡ ok a
      → let c = (create s).1.client in
        (i : ℕ) × (n : HealthTask E) × ((create s).1.this.health_task ≡ some i)
        × (old < i)
        × (get_elem? c.tasks i ≡ some n)
        × (n.status ≡ running)
        × (get_elem? c.tasks old ≡ some t)
  replaced_task_stays s old t held found live e =
      let u = create-Undisturbed.at s in
      let w =
        create-IsWatched (suc old) s (omega (arith, lt_of_get_elem? s.client.tasks old found)) e in
      (
        w.i,
        w.task,
        w.held,
        omega (arith, w.later),
        w.found,
        w.live,
        ap (λ ts. get_elem? ts old) u.client.tasks
            ∙ get_elem?-append s.client.tasks u.client.more old found,
      )
