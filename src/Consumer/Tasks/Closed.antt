-- ===== src/Consumer/Tasks/Closed.antt =====
-- After `close` the tasks of a consumer are at rest.
use danube_py.Prelude.{
  ℕ, zero, suc, String, true, Option, none, some, List, [], ◌∷◌, map, get_elem?, set, ◌≡◌, refl, ap,
  ◌∙◌,
}
use danube_py.Errors.{ok}
use danube_py.Exec.{Exec, pure, gets, modify, ◌>>=◌, ◌>>◌}
use danube_py.Exec.Inversion.{bind_step}
use danube_py.Env.{Env}
use danube_py.Client.{
  TaskStatus, running, finished, cancelled, cancel, outside, set_event, cancel_task,
}
use danube_py.TopicConsumer
use danube_py.TopicConsumer.{TopicConsumer, Subscriber}
use danube_py.TopicConsumer.Subscribe.{stop, cancel_health}
use danube_py.Consumer.{graceful_close_delay_ms, ReceiveTask, Group}
use danube_py.Consumer.Methods.{get_this, set_this, on_client, on_member}
use danube_py.Consumer.Tasks.{
  cancel_receive, close, stop_found, stop_members, step_running, step_task, wake,
}

module _ {E : Env} where
  at_rest :
      (j : ℕ) (t : ReceiveTask E) (status : TaskStatus) (g : Group E)
      → step_running j (cancel_receive t) (cancel status) g ≡ g
  at_rest j t running g = refl
  at_rest j t finished g = refl
  at_rest j t cancelled g = refl

  step_cancelled :
      (tasks : List (ReceiveTask E)) (i j : ℕ) (g : Group E)
      → step_task j (get_elem? (map cancel_receive tasks) i) g ≡ g
  step_cancelled [] i j g = refl
  step_cancelled (t ∷ tasks) zero j g = at_rest j t t.status g
  step_cancelled (t ∷ tasks) (suc i) j g = step_cancelled tasks i j g

  cancel_health_ok : (task : Option ℕ) (s : Subscriber E) → (cancel_health task s).0 ≡ ok tt
  unfolding ◌>>=◌ pure TopicConsumer.on_client TopicConsumer.set_this cancel_task
  cancel_health_ok none s = refl
  cancel_health_ok (some task) s = refl

  stop_ok : (s : Subscriber E) → (stop s).0 ≡ ok tt
  unfolding stop TopicConsumer.on_client TopicConsumer.get_this set_event
  stop_ok s = cancel_health_ok s.this.health_task _

  stop_found_ok :
      (i : ℕ) (found : Option (TopicConsumer E)) (g : Group E) → (stop_found i found g).0 ≡ ok tt
  unfolding pure on_member
  stop_found_ok i none g = refl
  stop_found_ok i (some tc) g = stop_ok (record { this = tc; client = g.client })

  stop_members_ok : (entries : List (String × ℕ)) (g : Group E) → (stop_members entries g).0 ≡ ok tt
  unfolding stop_members pure gets
  stop_members_ok [] g = refl
  stop_members_ok ((k, i) ∷ entries) g =
      let found = get_elem? g.topic_consumers i in
      ap (λ x. x.0)
        (bind_step (stop_found i found) (λ _. stop_members entries) g (stop_found_ok i found g))
      ∙ stop_members_ok entries (stop_found i found g).1

  -- What `close` does behind the topic consumers.
  rest_of_close : Exec (Group E) (Unit {0})
  rest_of_close =
      (set_this λ c. record c { tasks = map cancel_receive c.tasks })
      >> on_client (outside (modify (E.sleep_ms graceful_close_delay_ms)))

  close_rest : (g : Group E) → (u : Group E) × (close g ≡ rest_of_close u)
  unfolding close get_this on_client set_event rest_of_close
  close_rest g =
      let entries = g.this.consumers in
      let h : Group E = record g {
        client = record (g.client) { events = set g.client.events g.this.shutdown true };
      } in
      (
        (stop_members entries h).1,
        bind_step (stop_members entries) (λ _. rest_of_close) h (stop_members_ok entries h),
      )

  rest_of_close_at_rest : (u : Group E) (i : ℕ) → wake i (rest_of_close u).1 ≡ (rest_of_close u).1
  unfolding wake rest_of_close set_this on_client outside modify ◌>>=◌
  rest_of_close_at_rest u i = step_cancelled u.this.tasks i i _

  -- `close` never raises, and after it no receive task of the consumer does anything more when the
  -- event loop wakes it up.
  pub close_at_rest :
      (g : Group E) (i : ℕ) → ((close g).0 ≡ ok tt) × (wake i (close g).1 ≡ (close g).1)
  unfolding rest_of_close set_this on_client outside modify ◌>>=◌
  close_at_rest g i = let (u, e) = close_rest g in rw e (refl, rest_of_close_at_rest u i)
