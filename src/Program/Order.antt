-- ===== src/Program/Order.antt =====
-- The consumers of a program stay in order, whatever the program does.
use danube_py.Prelude.{
  ℕ, String, some, [], All, All-get_elem?, All-set, All-append, Bool-cases, inl, inr, str_eq, ◌||◌,
  sym, ap, subst, ◌≡◌,
}
use danube_py.Errors.{ok-inj, ok}
use danube_py.Env.{Env}
use danube_py.Client.{Client}
use danube_py.Growth.Group.{IsBounded}
use danube_py.Consumer.{Consumer}
use danube_py.Consumer.Dict.{find_entry}
use danube_py.Consumer.Builder.{ConsumerBuilder, build}
use danube_py.Consumer.Methods.Keyed.{IsOf}
use danube_py.Program.{
  ConsumerCall, consume, Member, Program, group_of, member_of, Step, producing, consuming, managing,
  building_producer, building_consumer, configuring, outside, Reach, here, later,
}
use danube_py.Program.Growth.{consume-Keeps}

module _ {E : Env} where
  -- Every entry of the dict stands for a topic consumer of the topic that is its key, and no queue
  -- holds more messages than its capacity.
  pub record IsOrderly (m : Member E) : Type 0 where
    pub keyed :
        (topic : String) (i : ℕ)
        → find_entry topic m.this.consumers ≡ some i
        → IsOf m.topic_consumers topic i
    pub queues : All IsBounded m.queues

  consume-IsOrderly :
      (call : ConsumerCall) (m : Member E) (c : Client E)
      → IsOrderly m
      → IsOrderly (member_of (consume call (group_of m c)))
  consume-IsOrderly call m c o =
      let k = consume-Keeps call (group_of m c) in
      record { keyed = (k.keyed (record { keyed = o.keyed })).keyed; queues = k.queues o.queues }

  built_empty :
      (b : ConsumerBuilder) (c : Consumer E) (s : Client E)
      → (build b s).0 ≡ ok c
      → c.consumers ≡ []
  unfolding build
  built_empty b c s h =
      elim (Bool-cases
        (str_eq b.topic "" || (str_eq b.consumer_name "" || str_eq b.subscription ""))) [
          | inl bad ↦ let h' = rw (bad, build) at h in cc
          | inr good ↦ let h' = rw (good, build) at h in ap (λ x. x.consumers) (ok-inj (sym h'))
        ]

  built-IsOrderly :
      (b : ConsumerBuilder) (c : Consumer E) (s : Client E)
      → (build b s).0 ≡ ok c
      → IsOrderly (record { this = c; topic_consumers = []; queues = [] })
  built-IsOrderly b c s h = record {
    keyed = λ topic i e.
        nothing_in topic i (subst (λ d. find_entry topic d ≡ some i) (built_empty b c s h) e);
    queues = tt;
  }
    where
      nothing_in : (topic : String) (i : ℕ) → find_entry topic [] ≡ some i → IsOf {E = E} [] topic i
      nothing_in topic i e = cc

  Step-IsOrderly :
      {s t : Program E} → Step s t → All IsOrderly s.consumers → All IsOrderly t.consumers
  Step-IsOrderly (producing i p call e) o = o
  Step-IsOrderly {s} (consuming i m call e) o =
      All-set IsOrderly s.consumers i _ o
        (consume-IsOrderly call m s.client (All-get_elem? IsOrderly s.consumers i o e))
  Step-IsOrderly (managing call) o = o
  Step-IsOrderly (building_producer b p e) o = o
  Step-IsOrderly {s} (building_consumer b c e) o =
      All-append IsOrderly s.consumers _ o (built-IsOrderly b c s.client e, tt)
  Step-IsOrderly (configuring call uri b e) o = o
  Step-IsOrderly (outside w) o = o

  -- If the consumers of a program are in order, they are so in every state that it reaches, in which
  -- order its calls, its tasks, its user and the world outside may have acted.
  pub Reach-IsOrderly :
      {s t : Program E} → Reach s t → All IsOrderly s.consumers → All IsOrderly t.consumers
  Reach-IsOrderly here o = o
  Reach-IsOrderly (later r st) o = Step-IsOrderly st (Reach-IsOrderly r o)
