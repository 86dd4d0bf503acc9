-- ===== src/Growth/Group/Calls.antt =====
-- The methods of a consumer, and the steps of its tasks.
use danube_py.Prelude.{
  All-set, All-get_elem?, All-append, ℕ, String, Option, none, some, List, [], ◌∷◌, ◌++◌, get_elem?,
  map, Option-cases, inl, inr, ◌≡◌, refl, subst, arith,
}
use danube_py.Exec.{Exec, pure, gets, modify, ◌>>◌}
use danube_py.Exec.Steps.{Steps, Steps-pure, Steps-gets, Steps-modify, steps_rules}
use danube_py.Env.{Env}
use danube_py.Env.Api.{StreamMessage}
use danube_py.Client.{TaskStatus, running, finished, cancelled}
use danube_py.Connection.Growth.{Grows-preorder, outside-Grows, set_event-Grows}
use danube_py.TopicConsumer.{TopicConsumer, Subscriber}
use danube_py.TopicConsumer.Subscribe
use danube_py.Growth.Subscriber.{Evolves}
use danube_py.Growth.Subscriber.Ending.{send_ack-Evolves, send_nack-Evolves, stop-Evolves}
use danube_py.Growth.Feed.{receive_step-Feeds}
use danube_py.Growth.Group.{
  IsBounded, Keeps, Keeps-preorder, Keeps-of_rest, on_client-Keeps, on_member-Keeps, bind-Keeps,
}
use danube_py.Consumer.{Consumer, Group, Feed, ReceiveTask}
use danube_py.Consumer.Loop.{receive_step}
use danube_py.Consumer.Dict.{find_entry}
use danube_py.Consumer.Methods.{
  get_this, set_this, on_member, receive, receive_task, member?, ack_by, ack, nack_by, nack,
}
use danube_py.Consumer.Tasks.{
  stop_found, stop_members, cancel_receive, close, step_with, step_running, step_task, wake,
}
use danube_py.Consumer.Tasks.Kept.{set-IsOf}

module _ {E : Env} where
  abbrev place_of : List (TopicConsumer E) → Option ℕ → Option (ℕ × TopicConsumer E)
  place_of tcs o = elim o [
    | none ↦ none
    | some i ↦ elim (get_elem? tcs i) [ none ↦ none | some tc ↦ some (i, tc) ]
  ]

  get_this-Keeps : {A : Type 0} (f : Consumer E → A) → Steps Keeps (get_this f)
  unfolding get_this
  get_this-Keeps f = Steps-gets Keeps-preorder _

  set_tasks-Keeps :
      (f : List (ReceiveTask E) → List (ReceiveTask E))
      → Steps Keeps (set_this λ c. record c { tasks = f c.tasks })
  unfolding set_this
  set_tasks-Keeps f =
      Steps-modify _ λ g. Keeps-of_rest g _ (Grows-preorder.reflexive g.client) refl refl refl

  -- `receive` adds an empty queue.
  add_queue-Keeps : Steps (Keeps {E = E}) (modify λ g. record g { queues = g.queues ++ ([] ∷ []) })
  add_queue-Keeps = Steps-modify _ λ g. record {
    client = Grows-preorder.reflexive g.client;
    settings = refl;
    topics = λ topic i o. o;
    keyed = λ k. record { keyed = k.keyed };
    queues = λ b. All-append IsBounded g.queues ([] ∷ []) b (omega arith, tt);
  }

  add_tasks-Keeps :
      (queue : ℕ)
      → Steps
          (Keeps {E = E})
          (set_this λ c. record c { tasks = c.tasks ++ map (receive_task c queue) c.consumers })
  unfolding set_this
  add_tasks-Keeps queue =
      Steps-modify _ λ g. Keeps-of_rest g _ (Grows-preorder.reflexive g.client) refl refl refl

  pub receive-Keeps : Steps (Keeps {E = E}) receive
  unfolding receive
  receive-Keeps = search (steps_rules, Keeps-preorder, add_queue-Keeps, add_tasks-Keeps)

  -- What `member?` finds stands at its place.
  at_place :
      (tcs : List (TopicConsumer E)) (o : Option ℕ) {j : ℕ} {tc : TopicConsumer E}
      → place_of tcs o ≡ some (j, tc)
      → get_elem? tcs j ≡ some tc
  at_place tcs none h = cc
  at_place tcs (some i) {j} {tc} h = elim (Option-cases (get_elem? tcs i)) [
    | inl e ↦ let h' = rw (e, place_of) at h in cc
    | inr (x, e) ↦
        let h' = rw (e, place_of) at h in subst (λ y. get_elem? tcs y.0 ≡ some y.1) (some-inj h') e
  ]
    where
      some-inj :
          {a b : ℕ × TopicConsumer E}
          → ◌≡◌ {A = Option (ℕ × TopicConsumer E)} (some a) (some b)
          → a ≡ b
      some-inj e = cc

  member-Keeps :
      {A : Type 0} (i : ℕ) (tc : TopicConsumer E) (m : Exec (Subscriber E) A) (g : Group E)
      → get_elem? g.topic_consumers i ≡ some tc
      → Steps Evolves m
      → Keeps g ((on_member i tc m >> pure tt) g).1
  member-Keeps i tc m g e h =
      bind-Keeps (on_member i tc m) (λ _. pure tt) g (on_member-Keeps i tc m g e h)
        λ _ _. (Steps-pure Keeps-preorder tt).at _

  ack_by-Keeps :
      (message : StreamMessage) (subscription : String) (found : Option (ℕ × TopicConsumer E))
      (topic_name : String) (g : Group E)
      → member? topic_name g ≡ found
      → Keeps g (ack_by message subscription found g).1
  unfolding pure
  ack_by-Keeps message subscription none topic_name g e = Keeps-preorder.reflexive g
  ack_by-Keeps message subscription (some (i, tc)) topic_name g e =
      member-Keeps i tc _ g (at_place g.topic_consumers (find_entry topic_name g.this.consumers) e)
        (send_ack-Evolves message.request_id message.msg_id subscription)

  pub ack-Keeps : (message : StreamMessage) → Steps (Keeps {E = E}) (ack message)
  unfolding ack gets
  ack-Keeps message = record {
    at = λ g.
        ack_by-Keeps message g.this.subscription (member? message.msg_id.topic_name g)
          message.msg_id.topic_name g refl;
  }

  nack_by-Keeps :
      (message : StreamMessage) (delay_ms : Option ℕ) (reason : Option String)
      (subscription : String) (found : Option (ℕ × TopicConsumer E)) (topic_name : String)
      (g : Group E)
      → member? topic_name g ≡ found
      → Keeps g (nack_by message delay_ms reason subscription found g).1
  unfolding pure
  nack_by-Keeps message delay_ms reason subscription none topic_name g e =
      Keeps-preorder.reflexive g
  nack_by-Keeps message delay_ms reason subscription (some (i, tc)) topic_name g e =
      member-Keeps i tc _ g (at_place g.topic_consumers (find_entry topic_name g.this.consumers) e)
        (send_nack-Evolves message.request_id message.msg_id subscription delay_ms reason)

  pub nack-Keeps :
      (message : StreamMessage) (delay_ms : Option ℕ) (reason : Option String)
      → Steps (Keeps {E = E}) (nack message delay_ms reason)
  unfolding nack gets
  nack-Keeps message delay_ms reason = record {
    at = λ g.
        nack_by-Keeps message delay_ms reason g.this.subscription
          (member? message.msg_id.topic_name g) message.msg_id.topic_name g refl;
  }

  stop_found-Keeps :
      (i : ℕ) (found : Option (TopicConsumer E)) (g : Group E)
      → get_elem? g.topic_consumers i ≡ found
      → Keeps g (stop_found i found g).1
  unfolding pure
  stop_found-Keeps i none g e = Keeps-preorder.reflexive g
  stop_found-Keeps i (some tc) g e = on_member-Keeps i tc Subscribe.stop g e stop-Evolves

  stop_members-Keeps : (entries : List (String × ℕ)) → Steps (Keeps {E = E}) (stop_members entries)
  unfolding stop_members gets
  stop_members-Keeps [] = Steps-pure Keeps-preorder tt
  stop_members-Keeps ((k, i) ∷ entries) = record {
    at = λ g.
        let found = get_elem? g.topic_consumers i in
        bind-Keeps (stop_found i found) (λ _. stop_members entries) g
          (stop_found-Keeps i found g refl) λ _ _. (stop_members-Keeps entries).at _;
  }

  cancel_tasks-Keeps :
      Steps (Keeps {E = E}) (set_this λ c. record c { tasks = map cancel_receive c.tasks })
  cancel_tasks-Keeps = set_tasks-Keeps (map cancel_receive)

  pub close-Keeps : Steps (Keeps {E = E}) close
  unfolding close
  close-Keeps =
      search
        (
          steps_rules, Keeps-preorder, get_this-Keeps, on_client-Keeps, cancel_tasks-Keeps,
          stop_members-Keeps, set_event-Grows, outside-Grows,
        )
        depth 9

  step_with-Keeps :
      (i : ℕ) (t : ReceiveTask E) (tc : Option (TopicConsumer E))
      (queue : Option (List StreamMessage)) (g : Group E)
      → get_elem? g.topic_consumers t.consumer ≡ tc
      → get_elem? g.queues t.queue ≡ queue
      → Keeps g (step_with i t tc queue g)
  step_with-Keeps i t (some tc) (some queue) g e f =
      let s : Feed E = record { this = tc; client = g.client; queue = queue } in
      let r = receive_step t.retry_manager g.this.shutdown t.phase s in
      let k = (receive_step-Feeds t.retry_manager g.this.shutdown t.phase).at s in
      let moved = λ (topic : String) (j : ℕ).
        set-IsOf g.topic_consumers topic t.consumer j tc r.1.this e k.consumer.topic_name in
      record {
        client = k.consumer.client;
        settings = refl;
        topics = moved;
        keyed = λ o. record { keyed = λ topic j h. moved topic j (o.keyed topic j h) };
        queues = λ b.
            All-set IsBounded g.queues t.queue r.1.queue b
              (k.bounded (All-get_elem? IsBounded g.queues t.queue b f));
      }
  step_with-Keeps i t (some tc) none g e f = Keeps-preorder.reflexive g
  step_with-Keeps i t none (some queue) g e f = Keeps-preorder.reflexive g
  step_with-Keeps i t none none g e f = Keeps-preorder.reflexive g

  step_running-Keeps :
      (i : ℕ) (t : ReceiveTask E) (status : TaskStatus) (g : Group E)
      → Keeps g (step_running i t status g)
  step_running-Keeps i t running g =
      step_with-Keeps i t (get_elem? g.topic_consumers t.consumer) (get_elem? g.queues t.queue) g
        refl refl
  step_running-Keeps i t finished g = Keeps-preorder.reflexive g
  step_running-Keeps i t cancelled g = Keeps-preorder.reflexive g

  step_task-Keeps : (i : ℕ) (t : Option (ReceiveTask E)) (g : Group E) → Keeps g (step_task i t g)
  step_task-Keeps i none g = Keeps-preorder.reflexive g
  step_task-Keeps i (some t) g = step_running-Keeps i t t.status g

  pub wake-Keeps : (i : ℕ) (g : Group E) → Keeps g (wake i g)
  unfolding wake
  wake-Keeps i g = step_task-Keeps i (get_elem? g.this.tasks i) g
