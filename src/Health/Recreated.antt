-- ===== src/Health/Recreated.antt =====
-- The health-check task that a producer starts.
use danube_py.Prelude.{
  ℕ, String, Bool, some, [], ◌∷◌, ◌++◌, length, Option-cases, inl, inr, ◌≡◌, refl, ap,
}
use danube_py.Errors.{ok}
use danube_py.Exec.{pure, ◌>>=◌, modify, zoom}
use danube_py.Exec.Inversion.{bind_at}
use danube_py.Env.{Env}
use danube_py.Env.Api.{ClientType, producer}
use danube_py.Client.{RpcConnection, Client, HealthTask, running, create_task}
use danube_py.Connection.{connection_key, lookup, get_connection}
use danube_py.Connection.Opened.{get_connection_hit, get_connection_miss, with_connection}
use danube_py.Health.{start_health_check}
use danube_py.TopicProducer.{Session, get_this, set_this, on_client}
use danube_py.TopicProducer.Create.{begin_health_check}

module _ {E : Env} where
  -- The task that `start_health_check` makes.
  abbrev pub new_task : RpcConnection E → String → String → Bool → ClientType → ℕ → ℕ → HealthTask E
  new_task conn url addr proxy t id event = record {
    channel = conn.channel;
    connect_url = url;
    broker_addr = addr;
    proxy = proxy;
    client_type = t;
    client_id = id;
    stop_event = event;
    status = running;
  }

  abbrev pub with_task : Client E → HealthTask E → Client E
  with_task c t = record c { tasks = c.tasks ++ (t ∷ []) }

  start_on :
      (url addr : String) (proxy : Bool) (t : ClientType) (id event : ℕ) (c d : Client E)
      (conn : RpcConnection E)
      → get_connection addr url c ≡ (ok conn, d)
      → start_health_check url addr proxy t id event c
        ≡ (ok (length d.tasks), with_task d (new_task conn url addr proxy t id event))
  unfolding start_health_check create_task
  start_on url addr proxy t id event c d conn h =
      bind_at (get_connection addr url)
        (λ conn. create_task (new_task conn url addr proxy t id event)) c h

  pub get_connection_rest :
      (addr url : String) (c : Client E)
      → (conn : RpcConnection E) × (d : Client E) × (get_connection addr url c ≡ (ok conn, d))
        × (d.events ≡ c.events)
        × (d.tasks ≡ c.tasks)
  get_connection_rest addr url c =
      elim (Option-cases (lookup (connection_key addr url) c.manager.connections)) [
        | inl fresh ↦
            (_, with_connection addr url c, get_connection_miss addr url c fresh, refl, refl)
        | inr (conn, e) ↦ (conn, c, get_connection_hit addr url c conn e, refl, refl)
      ]

  begin_on :
      (s : Session E) (c : Client E) (i : ℕ)
      → start_health_check s.this.connect_url s.this.broker_addr s.this.proxy producer
          s.this.producer_id s.this.stop_event s.client
        ≡ (ok i, c)
      → begin_health_check s
        ≡ (ok tt, record s { client = c; this = record (s.this) { health_task = some i } })
  unfolding begin_health_check get_this set_this on_client zoom modify ◌>>=◌ pure
  begin_on s c i h = rw h refl

  -- The task that the producer then holds is a new one, which runs and looks at its stop event.
  pub begun :
      (s : Session E)
      → (d : Client E) × (t : HealthTask E) × (begin_health_check s ≡ (
        ok tt,
        record s {
          client = with_task d t;
          this = record (s.this) { health_task = some (length d.tasks) };
        },
      ))
        × (d.tasks ≡ s.client.tasks)
        × (t.status ≡ running)
        × (t.stop_event ≡ s.this.stop_event)
  begun s =
      let p = s.this in
      let (conn, d, e, _, tasks) = get_connection_rest p.broker_addr p.connect_url s.client in
      let t =
        new_task conn p.connect_url p.broker_addr p.proxy producer p.producer_id p.stop_event in
      (
        d,
        t,
        begin_on s (with_task d t) (length d.tasks) (
            start_on p.connect_url p.broker_addr p.proxy producer p.producer_id p.stop_event
              s.client d conn e),
        tasks,
        refl,
        refl,
      )

  pub begin_health_check_ok :
      (s : Session E)
      → ((begin_health_check s).0 ≡ ok tt) × ((begin_health_check s).1.this.stub ≡ s.this.stub)
  begin_health_check_ok s =
      let (d, t, e, _, _, _) = begun s in (ap (λ r. r.0) e, ap (λ r. r.1.this.stub) e)
