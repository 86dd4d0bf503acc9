-- ===== src/Health/Silence.antt =====
-- After `stop` no health check goes out.
use danube_py.Prelude.{
  ℕ, zero, suc, ◌<◌, Bool, true, false, Option, none, some, List, [], ◌∷◌, length, get_elem?,
  get_or, set, ◌≡◌, refl, ap, ◌∙◌, arith,
}
use danube_py.Errors.{ok}
use danube_py.Exec.{◌>>=◌, modify, pure}
use danube_py.Env.{Env}
use danube_py.Client.{
  Client, HealthTask, TaskStatus, running, finished, cancelled, update_task, set_event, cancel_task,
}
use danube_py.TopicProducer.{Session, get_this, set_this, on_client}
use danube_py.TopicProducer.Create.{stop, cancel_health}
use danube_py.Health.{running_round, health_round, dispatch}

get_or-set : (bs : List Bool) (i : ℕ) → i < length bs → get_or (set bs i true) i false ≡ true
get_or-set [] i h = elim h [ ]
get_or-set (b ∷ bs) zero h = refl
get_or-set (b ∷ bs) (suc i) h = get_or-set bs i (omega arith)

module _ {E : Env} where
  -- A task whose event is set ends in its next round, and asks the broker nothing.
  pub round_of_set_event :
      (c : Client E) (i : ℕ) (t : HealthTask E)
      → get_elem? c.tasks i ≡ some t
      → get_or c.events t.stop_event false ≡ true
      → t.status ≡ running
      → health_round i c ≡ (ok tt, record c { tasks = update_task (λ _. finished) c.tasks i })
  unfolding health_round
  round_of_set_event c i t found stopped live = rw (found, live, stopped) refl

  -- A task that was cancelled does nothing.
  round_of_cancelled :
      (c : Client E) (i : ℕ) (t : HealthTask E)
      → get_elem? c.tasks i ≡ some t
      → t.status ≡ cancelled
      → health_round i c ≡ (ok tt, c)
  unfolding health_round
  round_of_cancelled c i t found dead = rw (found, dead) refl

  dispatch_silent :
      (c : Client E) (i : ℕ) (t : HealthTask E) (status : TaskStatus)
      → get_or c.events t.stop_event false ≡ true
      → (dispatch i t status c).1.world ≡ c.world
  unfolding running_round
  dispatch_silent c i t running stopped = rw stopped refl
  dispatch_silent c i t finished stopped = refl
  dispatch_silent c i t cancelled stopped = refl

  health_round_silent :
      (c : Client E) (i : ℕ) (t : HealthTask E)
      → get_elem? c.tasks i ≡ some t
      → get_or c.events t.stop_event false ≡ true
      → (health_round i c).1.world ≡ c.world
  unfolding health_round
  health_round_silent c i t found stopped = rw found (dispatch_silent c i t t.status stopped)

  stop_client :
      (task : Option ℕ) (s : Session E)
      → ((cancel_health task s).1.client.events ≡ s.client.events)
        × ((cancel_health task s).1.client.world ≡ s.client.world)
  unfolding on_client set_this modify cancel_task ◌>>=◌ pure
  stop_client none s = (refl, refl)
  stop_client (some i) s = (refl, refl)

  -- After `stop`, a round of a health-check task of this producer, be it the last one or an older
  -- one, asks the broker nothing: the world is as it was.
  pub stop_silences :
      (s : Session E) (i : ℕ) (t : HealthTask E)
      → s.this.stop_event < length s.client.events
      → get_elem? (stop s).1.client.tasks i ≡ some t
      → t.stop_event ≡ s.this.stop_event
      → (health_round i (stop s).1.client).1.world ≡ s.client.world
  unfolding stop get_this on_client set_event
  stop_silences s i t h found own =
      let c : Client E = record (s.client) {
        events = set s.client.events s.this.stop_event true;
      } in
      let (events, world) = stop_client s.this.health_task (record s { client = c }) in
      let stopped = get_or-set s.client.events s.this.stop_event h in
      health_round_silent (stop s).1.client i t found (
        ap (λ j. get_or (stop s).1.client.events j false) own
        ∙ ap (λ bs. get_or bs s.this.stop_event false) events
        ∙ stopped)
      ∙ world
