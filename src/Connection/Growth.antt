-- ===== src/Connection/Growth.antt =====
-- How the shared objects of a client change over any sequence of its calls.
use danube_py.Prelude.{
  ℕ, zero, suc, ◌≤◌, String, Bool, true, false, ap, sym, subst, Option-cases, inl, inr, List, [],
  ◌∷◌, none, length, length-append, length-set, ◌≡◌, refl, ◌∙◌, arith,
}
use danube_py.Errors.{ok}
use danube_py.Exec.{Exec}
use danube_py.Exec.Steps.{IsPreorder, Steps}
use danube_py.Env.{Env, ChannelView}
use danube_py.Client.{
  RpcConnection, Client, outside, new_event, set_event, clear_event, create_task, cancel_task,
  update_task, TaskStatus, cancel, finished, finish_task, next_health_id, next_lookup_id,
  HealthTask,
}
use danube_py.Connection.{connection_key, lookup, get_connection}
use danube_py.Connection.Opened.{
  AreOpenedAs, get_connection_hit, get_connection_miss, get_connection_found, with_connection,
  with_connection-AreOpenedAs,
}
use danube_py.Connection.Cache.{AreValid, Extends, append-AreValid, lookup-append_some}

key_canonical :
    (b a : String)
    → connection_key b a
      ≡ connection_key (connection_key b a).broker_url (connection_key b a).connect_url
unfolding connection_key
key_canonical b a = refl

length-update_task :
    {E : Env} (f : TaskStatus → TaskStatus) (ts : List (HealthTask E)) (i : ℕ)
    → length (update_task f ts i) ≡ length ts
length-update_task f [] i = refl
length-update_task f (t ∷ ts) zero = refl
length-update_task f (t ∷ ts) (suc i) = ap suc (length-update_task f ts i)

module _ {E : Env} where
  -- The settings stay, a found connection stays found, valid entries stay valid, channels are as the
  -- settings ask, and no number of a request, event or task is given out twice.
  pub record Grows (c d : Client E) : Type 0 where
    pub uri : d.uri ≡ c.uri
    pub options : d.manager.options ≡ c.manager.options
    pub found : Extends c.manager.connections d.manager.connections
    pub validity : AreValid c.manager.connections → AreValid d.manager.connections
    pub opened :
        (V : ChannelView E) (p : Bool → Bool)
        → p c.manager.options.use_tls ≡ true
        → AreOpenedAs V (λ x. p x ≡ true) c.manager.connections
        → AreOpenedAs V (λ x. p x ≡ true) d.manager.connections
    pub lookup_id : c.lookup_id ≤ d.lookup_id
    pub health_id : c.health_id ≤ d.health_id
    pub events : length c.events ≤ length d.events
    pub tasks : length c.tasks ≤ length d.tasks

  pub Grows-preorder : IsPreorder Grows
  Grows-preorder = record {
    reflexive = λ c. record {
      uri = refl;
      options = refl;
      found = λ k conn h. h;
      validity = λ v. v;
      opened = λ V p t o. o;
      lookup_id = omega arith;
      health_id = omega arith;
      events = omega arith;
      tasks = omega arith;
    };
    transitive = λ c d e g h. record {
      uri = h.uri ∙ g.uri;
      options = h.options ∙ g.options;
      found = λ k conn p. h.found k conn (g.found k conn p);
      validity = λ v. h.validity (g.validity v);
      opened = λ V p t o. h.opened V p (ap (λ z. p z.use_tls) g.options ∙ t) (g.opened V p t o);
      lookup_id = omega arith;
      health_id = omega arith;
      events = omega arith;
      tasks = omega arith;
    };
  }

  -- A call that leaves the settings and the dict alone.
  Grows_of_rest :
      (c d : Client E)
      → d.uri ≡ c.uri
      → d.manager ≡ c.manager
      → c.lookup_id ≤ d.lookup_id
      → c.health_id ≤ d.health_id
      → length c.events ≤ length d.events
      → length c.tasks ≤ length d.tasks
      → Grows c d
  Grows_of_rest c d u m l h e t = record {
    uri = u;
    options = ap (λ x. x.options) m;
    found = λ k conn p. ap (λ x. lookup k x.connections) m ∙ p;
    validity = λ v. subst (λ x. AreValid x.connections) (sym m) v;
    opened = λ V p t o. subst (λ x. AreOpenedAs V (λ y. p y ≡ true) x.connections) (sym m) o;
    lookup_id = l;
    health_id = h;
    events = e;
    tasks = t;
  }

  pub outside-Grows : {A : Type 0} (m : Exec E.World A) → Steps Grows (outside m)
  unfolding outside
  outside-Grows m = record {
    at = λ c. Grows_of_rest c _ refl refl (omega arith) (omega arith) (omega arith) (omega arith);
  }

  pub new_event-Grows : Steps Grows new_event
  unfolding new_event
  new_event-Grows = record {
    at = λ c.
        Grows_of_rest c _ refl refl (omega arith) (omega arith)
          (omega (arith, length-append c.events (false ∷ []))) (omega arith);
  }

  pub set_event-Grows : (i : ℕ) → Steps Grows (set_event i)
  unfolding set_event
  set_event-Grows i = record {
    at = λ c.
        Grows_of_rest c _ refl refl (omega arith) (omega arith)
          (omega (arith, length-set c.events i true)) (omega arith);
  }

  pub clear_event-Grows : (i : ℕ) → Steps Grows (clear_event i)
  unfolding clear_event
  clear_event-Grows i = record {
    at = λ c.
        Grows_of_rest c _ refl refl (omega arith) (omega arith)
          (omega (arith, length-set c.events i false)) (omega arith);
  }

  pub create_task-Grows : (t : HealthTask E) → Steps Grows (create_task t)
  unfolding create_task
  create_task-Grows t = record {
    at = λ c.
        Grows_of_rest c _ refl refl (omega arith) (omega arith) (omega arith)
          (omega (arith, length-append c.tasks (t ∷ [])));
  }

  pub cancel_task-Grows : (i : ℕ) → Steps Grows (cancel_task i)
  unfolding cancel_task
  cancel_task-Grows i = record {
    at = λ c.
        Grows_of_rest c _ refl refl (omega arith) (omega arith) (omega arith)
          (omega (arith, length-update_task cancel c.tasks i));
  }

  pub finish_task-Grows : (i : ℕ) → Steps Grows (finish_task i)
  unfolding finish_task
  finish_task-Grows i = record {
    at = λ c.
        Grows_of_rest c _ refl refl (omega arith) (omega arith) (omega arith)
          (omega (arith, length-update_task (λ _. finished) c.tasks i));
  }

  pub next_lookup_id-Grows : Steps Grows next_lookup_id
  unfolding next_lookup_id
  next_lookup_id-Grows = record {
    at = λ c. Grows_of_rest c _ refl refl (omega arith) (omega arith) (omega arith) (omega arith);
  }

  pub next_health_id-Grows : Steps Grows next_health_id
  unfolding next_health_id
  next_health_id-Grows = record {
    at = λ c. Grows_of_rest c _ refl refl (omega arith) (omega arith) (omega arith) (omega arith);
  }

  with_connection-Grows :
      (b a : String) (c : Client E)
      → lookup (connection_key b a) c.manager.connections ≡ none
      → Grows c (with_connection b a c)
  with_connection-Grows b a c fresh = record {
    uri = refl;
    options = refl;
    found = λ k x h. lookup-append_some k c.manager.connections _ x h;
    validity = λ v.
        append-AreValid c.manager.connections (connection_key b a) _ (key_canonical b a) fresh v;
    opened = λ V p t o. with_connection-AreOpenedAs V (λ x. p x ≡ true) b a c t o;
    lookup_id = omega arith;
    health_id = omega arith;
    events = omega arith;
    tasks = omega arith;
  }

  pub get_connection-Grows : (b a : String) → Steps Grows (get_connection b a)
  get_connection-Grows b a = record {
    at = λ c. elim (Option-cases (lookup (connection_key b a) c.manager.connections)) [
      | inl fresh ↦ rw (get_connection_miss b a c fresh) (with_connection-Grows b a c fresh)
      | inr (conn, e) ↦ rw (get_connection_hit b a c conn e) (Grows-preorder.reflexive c)
    ];
  }

  -- One connection for each pair of addresses: after `get_connection` has returned a connection,
  -- and whatever has been added to the dict of the client since, the same call returns the same
  -- connection, opens no channel and changes nothing.
  pub get_connection_stable :
      (b a : String) (c d : Client E) {conn : RpcConnection E} {c' : Client E}
      → get_connection b a c ≡ (ok conn, c')
      → Extends c'.manager.connections d.manager.connections
      → get_connection b a d ≡ (ok conn, d)
  get_connection_stable b a c d {conn} {c'} h g =
      get_connection_hit b a d conn (g (connection_key b a) conn (get_connection_found b a c h))
