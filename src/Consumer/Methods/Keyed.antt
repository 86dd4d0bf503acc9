-- ===== src/Consumer/Methods/Keyed.antt =====
-- The topic consumers of a consumer stand under the names of their topics.
use danube_py.Prelude.{
  ℕ, String, Bool-cases, inl, inr, Option, some, List, [], ◌∷◌, ◌++◌, length, get_elem?, set,
  get_elem?-append_length, get_elem?-append, str_eq, eq_iff, ◌≡◌, refl, sym, ap, ◌∙◌, subst,
}
use mathlib.Core.List.{append-nil, append_assoc}
use danube_py.Errors.{Result, ok, err, pending, ok-inj}
use danube_py.Exec.{Exec, pure, raise, gets, modify, ◌>>=◌, ◌>>◌}
use danube_py.Exec.Inversion.{bind_ok, bind_cases, bind_step}
use danube_py.Env.{Env}
use danube_py.Lookup.{topic_partitions}
use danube_py.TopicConsumer
use danube_py.TopicConsumer.{TopicConsumer, Subscriber}
use danube_py.TopicConsumer.Subscribe
use danube_py.Growth.Subscriber.{subscribe-Evolves}
use danube_py.Consumer.{Group}
use danube_py.Consumer.Dict.{gather_results, put_entry, dict_of, find_entry}
use danube_py.Consumer.Methods.{
  get_this, set_this, on_client, on_member, add_member, subscribe_one, subscribe_all, no_partitions,
  subscribe,
}

set-append_length :
    {A : Type 0} (xs : List A) (a b : A) → set (xs ++ (a ∷ [])) (length xs) b ≡ xs ++ (b ∷ [])
set-append_length [] a b = refl
set-append_length (x ∷ xs) a b = ap (λ r. x ∷ r) (set-append_length xs a b)

-- A call whose result is replaced by a given one.
then_pair :
    {S : Type 0} (a : String × ℕ) (m : Exec S ℕ) (s : S)
    → let r = (m >> pure a) s in (r.1 ≡ (m s).1) × ((x : String × ℕ) → r.0 ≡ ok x → x ≡ a)
unfolding pure
then_pair {S} a m s =
    bind_cases IsThen m (λ _. pure a) s (λ n e. (refl, λ x h. cc)) (λ e h. (refl, λ x k. cc))
      (λ h. (refl, λ x k. cc))
  where
    IsThen : Result (String × ℕ) × S → Type 0
    IsThen r = (r.1 ≡ (m s).1) × ((x : String × ℕ) → r.0 ≡ ok x → x ≡ a)

gather_results_ok :
    {A : Type 0} (r : Result A) (rest : Result (List A)) (out : List A)
    → gather_results r rest ≡ ok out
    → (a : A) × (bs : List A) × (r ≡ ok a) × (rest ≡ ok bs) × (out ≡ a ∷ bs)
gather_results_ok (ok a) (ok rest) out h = (a, rest, refl, refl, cc)
gather_results_ok (ok a) (err e) out h = cc
gather_results_ok (ok a) pending out h = cc
gather_results_ok (err e) rest out h = cc
gather_results_ok pending (ok rest) out h = cc
gather_results_ok pending (err e) out h = cc
gather_results_ok pending pending out h = cc

module _ {E : Env} where
  -- The topic consumer at a place is one of a topic.
  abbrev pub IsOf : List (TopicConsumer E) → String → ℕ → Type 0
  IsOf tcs topic i = (tc : TopicConsumer E) × (get_elem? tcs i ≡ some tc) × (tc.topic_name ≡ topic)

  abbrev pub AreOf : List (TopicConsumer E) → List (String × ℕ) → Type 0
  AreOf tcs [] = Unit
  AreOf tcs ((topic, i) ∷ entries) = IsOf tcs topic i × AreOf tcs entries

  pub IsOf-append :
      (tcs more : List (TopicConsumer E)) (topic : String) (i : ℕ)
      → IsOf tcs topic i
      → IsOf (tcs ++ more) topic i
  IsOf-append tcs more topic i (tc, e, t) = (tc, get_elem?-append tcs more i e, t)

  put_entry-AreOf :
      (tcs : List (TopicConsumer E)) (topic : String) (i : ℕ) (entries : List (String × ℕ))
      → IsOf tcs topic i
      → AreOf tcs entries
      → AreOf tcs (put_entry topic i entries)
  put_entry-AreOf tcs topic i [] h a = (h, tt)
  put_entry-AreOf tcs topic i ((k, j) ∷ entries) h a = elim (Bool-cases (str_eq k topic)) [
    | inl same ↦ rw same (subst (λ t. IsOf tcs t i) (sym ((eq_iff k topic).0 same)) h, a.1)
    | inr other ↦ rw other (a.0, put_entry-AreOf tcs topic i entries h a.1)
  ]

  dict_of-AreOf :
      (tcs : List (TopicConsumer E)) (entries pairs : List (String × ℕ))
      → AreOf tcs entries
      → AreOf tcs pairs
      → AreOf tcs (dict_of entries pairs)
  dict_of-AreOf tcs entries [] a b = a
  dict_of-AreOf tcs entries ((k, i) ∷ pairs) a b =
      dict_of-AreOf tcs (put_entry k i entries) pairs (put_entry-AreOf tcs k i entries b.0 a) b.1

  find_entry-IsOf :
      (tcs : List (TopicConsumer E)) (topic : String) (entries : List (String × ℕ)) {i : ℕ}
      → AreOf tcs entries
      → find_entry topic entries ≡ some i
      → IsOf tcs topic i
  find_entry-IsOf tcs topic [] a h = cc
  find_entry-IsOf tcs topic ((k, j) ∷ entries) {i} a h = elim (Bool-cases (str_eq k topic)) [
    | inl same ↦
        let h' = rw same at h in
        subst (λ t. IsOf tcs t i) ((eq_iff k topic).0 same) (subst (IsOf tcs k) (some-inj h') a.0)
    | inr other ↦ let h' = rw other at h in find_entry-IsOf tcs topic entries a.1 h'
  ]
    where
      some-inj : {a b : ℕ} → ◌≡◌ {A = Option ℕ} (some a) (some b) → a ≡ b
      some-inj e = cc

module _ {E : Env} where
  -- `add_member` never raises; it appends a topic consumer of the partition.
  pub add_member_lem :
      (partition : String) (g : Group E)
      → (tc : TopicConsumer E) × ((add_member partition g).0 ≡ ok (length g.topic_consumers, tc))
        × (tc.topic_name ≡ partition)
        × ((add_member partition g).1.topic_consumers ≡ g.topic_consumers ++ (tc ∷ []))
  unfolding add_member get_this on_client TopicConsumer.new gets modify pure ◌>>=◌
  add_member_lem partition g = (_, refl, refl, refl)

  member_after :
      (partition : String) (g : Group E) (tc : TopicConsumer E)
      → tc.topic_name ≡ partition
      → (g' : Group E) → g'.topic_consumers ≡ g.topic_consumers ++ (tc ∷ [])
      → (t : TopicConsumer E) × (t.topic_name ≡ partition)
        × ((on_member (length g.topic_consumers) tc Subscribe.subscribe g').1.topic_consumers
            ≡ g.topic_consumers ++ (t ∷ []))
  unfolding on_member
  member_after partition g tc name g' same =
      let s : Subscriber E = record { this = tc; client = g'.client } in
      let t = (Subscribe.subscribe s).1.this in
      (
        t,
        (subscribe-Evolves.at s).topic_name ∙ name,
        ap (λ tcs. set tcs (length g.topic_consumers) t) same
            ∙ set-append_length g.topic_consumers tc t,
      )

  -- `subscribe_one` appends a topic consumer of the partition, also if its subscription fails.
  subscribe_one_lem :
      (partition : String) (g : Group E)
      → (t : TopicConsumer E) × (t.topic_name ≡ partition)
        × ((subscribe_one partition g).1.topic_consumers ≡ g.topic_consumers ++ (t ∷ []))
        × ((x : String × ℕ)
            → (subscribe_one partition g).0 ≡ ok x
            → x ≡ (partition, length g.topic_consumers))
  unfolding subscribe_one
  subscribe_one_lem partition g =
      let (tc, e, name, same) = add_member_lem partition g in
      let g' = (add_member partition g).1 in
      let place = length g.topic_consumers in
      let (t, name', same') = member_after partition g tc name g' same in
      let named : ℕ → Exec (Group E) (String × ℕ) = λ i. pure (partition, i) in
      let rest : ℕ × TopicConsumer E → Exec (Group E) (String × ℕ) =
        λ m. on_member m.0 m.1 Subscribe.subscribe >> named m.0 in
      let step = bind_step (add_member partition) rest g e in
      let (kept, pair) = then_pair (partition, place) (on_member place tc Subscribe.subscribe) g' in
      (
        t,
        name',
        ap (λ r. r.1.topic_consumers) step ∙ ap (λ g. g.topic_consumers) kept ∙ same',
        λ x h. pair x (ap (λ r. r.0) (sym step) ∙ h),
      )

  pub subscribe_all_lem :
      (partitions : List String) (g : Group E)
      → (more : List (TopicConsumer E)) × ((subscribe_all partitions g).1.topic_consumers
          ≡ g.topic_consumers ++ more)
        × ((results : List (String × ℕ))
            → (subscribe_all partitions g).0 ≡ ok results
            → AreOf (g.topic_consumers ++ more) results)
  unfolding subscribe_all
  subscribe_all_lem [] g = (
    [],
    sym (append-nil g.topic_consumers),
    λ results h. subst (AreOf (g.topic_consumers ++ [])) (ok-inj h) tt,
  )
  subscribe_all_lem (p ∷ ps) g =
      let (t, name, same, pair) = subscribe_one_lem p g in
      let g' = (subscribe_one p g).1 in
      let (more, kept, of_rest) = subscribe_all_lem ps g' in
      let at_end =
        kept ∙ ap (λ tcs. tcs ++ more) same ∙ append_assoc g.topic_consumers (t ∷ []) more in
      (
        t ∷ more,
        at_end,
        λ results h.
            let (x, xs, e, f, o) = gather_results_ok (subscribe_one p g).0 _ results h in
            let first : IsOf (g.topic_consumers ++ (t ∷ more)) p (length g.topic_consumers) =
              (t, get_elem?-append_length g.topic_consumers t more, name) in
            let others =
              subst (λ tcs. AreOf tcs xs)
                (ap (λ tcs. tcs ++ more) same ∙ append_assoc g.topic_consumers (t ∷ []) more)
                (of_rest xs f) in
            subst (AreOf (g.topic_consumers ++ (t ∷ more))) (sym (o ∙ ap (λ y. y ∷ xs) (pair x e)))
              (first, others),
      )

  -- Every entry of the dict stands for a topic consumer of the topic that is its key.
  pub record IsKeyed (g : Group E) : Type 0 where
    pub keyed :
        (topic : String) (i : ℕ)
        → find_entry topic g.this.consumers ≡ some i
        → IsOf g.topic_consumers topic i

  abbrev pub finish : List (String × ℕ) → Exec (Group E) (Unit {0})
  finish results =
      (set_this λ c. record c { consumers = dict_of [] results })
      >> no_partitions (dict_of [] results)

  pub no_partitions_kept :
      (entries : List (String × ℕ)) (g : Group E) → (no_partitions entries g).1 ≡ g
  unfolding raise pure
  no_partitions_kept [] g = refl
  no_partitions_kept (e ∷ entries) g = refl

  pub finish-IsKeyed :
      (results : List (String × ℕ)) (g : Group E)
      → AreOf g.topic_consumers results
      → IsKeyed (finish results g).1
  unfolding set_this modify ◌>>=◌
  finish-IsKeyed results g a =
      let stored : Group E = record g {
        this = record (g.this) { consumers = dict_of [] results };
      } in
      subst IsKeyed (sym (no_partitions_kept (dict_of [] results) stored)) (record {
        keyed = λ topic i h.
            find_entry-IsOf g.topic_consumers topic (dict_of [] results)
              (dict_of-AreOf g.topic_consumers [] results tt a) h;
      })

  -- After a `subscribe` that returned, every entry of the consumer's dict stands for a topic consumer
  -- of the topic that is its key.
  subscribe-IsKeyed : (g : Group E) → (subscribe g).0 ≡ ok tt → IsKeyed (subscribe g).1
  unfolding subscribe get_this gets
  subscribe-IsKeyed g h =
      let find = on_client (topic_partitions g.client.uri g.this.topic_name) in
      let (ps, e, same, k) = bind_ok find (λ ps. subscribe_all ps >>= finish) g h in
      let g1 = (find g).1 in
      let (rs, f, same', k') = bind_ok (subscribe_all ps) finish g1 k in
      let (more, kept, of_all) = subscribe_all_lem ps g1 in
      subst IsKeyed (sym (ap (λ r. r.1) (same ∙ same'))) (
        finish-IsKeyed rs (subscribe_all ps g1).1
          (subst (λ tcs. AreOf tcs rs) (sym kept) (of_all rs f)))
