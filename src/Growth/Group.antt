-- ===== src/Growth/Group.antt =====
-- What the methods and the tasks of a consumer leave of its settings, its topic consumers, its queues
-- and the shared client.
pub mod Calls
pub mod Subscribing
use danube_py.Prelude.{
  All, ℕ, zero, suc, ◌+◌, ◌≤◌, String, Option, none, some, List, [], ◌∷◌, ◌++◌, length, get_elem?,
  set, map, get_elem?-append, get_elem?-append_length, Option-cases, inl, inr, ◌≡◌, refl, sym, ap,
  ◌∙◌, subst, arith,
}
use danube_py.Errors.{Result, ok}
use danube_py.Exec.{Exec, pure, gets, modify, ◌>>=◌, ◌>>◌}
use danube_py.Exec.Steps.{IsPreorder, Steps}
use danube_py.Exec.Inversion.{bind_cases}
use danube_py.Env.{Env}
use danube_py.Env.Api.{StreamMessage}
use danube_py.Client.{Client, outside, set_event}
use danube_py.Connection.Growth.{Grows, Grows-preorder, outside-Grows, set_event-Grows}
use danube_py.TopicConsumer.{TopicConsumer, Subscriber}
use danube_py.Growth.{topic_partitions-Grows}
use danube_py.Growth.Subscriber.{Evolves}
use danube_py.Consumer.{Consumer, Group, receive_channel_buffer}
use danube_py.Consumer.Dict.{find_entry}
use danube_py.Consumer.Methods.{get_this, set_this, on_client, on_member}
use danube_py.Consumer.Methods.Keyed.{IsOf, IsKeyed}
use danube_py.Consumer.Tasks.Kept.{set-IsOf}

-- A queue holds no more messages than its capacity.
abbrev pub IsBounded : List StreamMessage → Type 0
IsBounded q = length q ≤ receive_channel_buffer

module _ {E : Env} where
  -- The settings of the consumer stay, a topic consumer stays one of its topic, the dict stays in
  -- order if it was, the queues stay within their capacity if they were, and the client grows.
  pub record Keeps (g h : Group E) : Type 0 where
    pub client : Grows g.client h.client
    pub settings : h.this ≡ record (g.this) { consumers = h.this.consumers; tasks = h.this.tasks }
    pub topics :
        (topic : String) (i : ℕ) → IsOf g.topic_consumers topic i → IsOf h.topic_consumers topic i
    pub keyed : IsKeyed g → IsKeyed h
    pub queues : All IsBounded g.queues → All IsBounded h.queues

  pub Keeps-preorder : IsPreorder Keeps
  Keeps-preorder = record {
    reflexive = λ g. record {
      client = Grows-preorder.reflexive g.client;
      settings = refl;
      topics = λ topic i h. h;
      keyed = λ k. k;
      queues = λ b. b;
    };
    transitive = λ g h k a b. record {
      client = Grows-preorder.transitive g.client h.client k.client a.client b.client;
      settings =
          b.settings
          ∙ ap {A = Consumer E}
              (λ c. record c { consumers = k.this.consumers; tasks = k.this.tasks }) a.settings;
      topics = λ topic i o. b.topics topic i (a.topics topic i o);
      keyed = λ o. b.keyed (a.keyed o);
      queues = λ o. b.queues (a.queues o);
    };
  }

  -- A group that differs in the client and the tasks only.
  pub Keeps-of_rest :
      (g h : Group E)
      → Grows g.client h.client
      → h.this ≡ record (g.this) { tasks = h.this.tasks }
      → h.topic_consumers ≡ g.topic_consumers
      → h.queues ≡ g.queues
      → Keeps g h
  Keeps-of_rest g h c s t q = record {
    client = c;
    settings = s ∙ ap (λ cs. record (g.this) { consumers = cs; tasks = h.this.tasks }) (sym dict);
    topics = λ topic i o. subst (λ tcs. IsOf tcs topic i) (sym t) o;
    keyed = λ k. record {
      keyed = λ topic i e.
          subst (λ tcs. IsOf tcs topic i) (sym t)
            (k.keyed topic i (ap (find_entry topic) (sym dict) ∙ e));
    };
    queues = subst (All IsBounded) (sym q);
  }
    where
      dict : h.this.consumers ≡ g.this.consumers
      dict = ap (λ c. c.consumers) s

  pub on_client-Keeps :
      {A : Type 0} (m : Exec (Client E) A) → Steps Grows m → Steps Keeps (on_client m)
  unfolding on_client
  on_client-Keeps m h = record { at = λ g. Keeps-of_rest g _ (h.at g.client) refl refl refl }

  pub on_member-Keeps :
      {A : Type 0} (i : ℕ) (tc : TopicConsumer E) (m : Exec (Subscriber E) A) (g : Group E)
      → get_elem? g.topic_consumers i ≡ some tc
      → Steps Evolves m
      → Keeps g (on_member i tc m g).1
  unfolding on_member
  on_member-Keeps i tc m g e h =
      let s : Subscriber E = record { this = tc; client = g.client } in
      let k = h.at s in
      let moved = λ (topic : String) (j : ℕ).
        set-IsOf g.topic_consumers topic i j tc (m s).1.this e k.topic_name in
      record {
        client = k.client;
        settings = refl;
        topics = moved;
        keyed = λ o. record { keyed = λ topic j f. moved topic j (o.keyed topic j f) };
        queues = λ b. b;
      }

  -- The second of two calls is compared only where the first returns.
  pub bind-Keeps :
      {A B : Type 0} (m : Exec (Group E) A) (f : A → Exec (Group E) B) (g : Group E)
      → Keeps g (m g).1
      → ((a : A) → (m g).0 ≡ ok a → Keeps (m g).1 (f a (m g).1).1)
      → Keeps g ((m >>= f) g).1
  bind-Keeps m f g h k =
      bind_cases (λ x. Keeps g x.1) m f g
        (λ a e. Keeps-preorder.transitive g (m g).1 (f a (m g).1).1 h (k a e)) (λ _ _. h) (λ _. h)
