-- ===== src/Consumer/Tasks/Kept.antt =====
-- A topic consumer that a receive task has changed stands under the name of its topic.
use danube_py.Prelude.{
  ℕ, zero, suc, String, Option, some, List, [], ◌∷◌, get_elem?, set, ◌≡◌, refl, sym, ap, ◌∙◌,
}
use danube_py.Env.{Env}
use danube_py.TopicConsumer.{TopicConsumer}
use danube_py.Consumer.Methods.Keyed.{IsOf}

module _ {E : Env} where
  pub set-IsOf :
      (tcs : List (TopicConsumer E)) (topic : String) (i j : ℕ) (tc t : TopicConsumer E)
      → get_elem? tcs i ≡ some tc
      → t.topic_name ≡ tc.topic_name
      → IsOf tcs topic j
      → IsOf (set tcs i t) topic j
  set-IsOf [] topic i j tc t at kept h = h
  set-IsOf (x ∷ tcs) topic zero zero tc t at kept (y, e, n) =
      (t, refl, kept ∙ ap (λ z. z.topic_name) (some-inj (sym at ∙ e)) ∙ n)
    where
      some-inj :
          {a b : TopicConsumer E} → ◌≡◌ {A = Option (TopicConsumer E)} (some a) (some b) → a ≡ b
      some-inj e = cc
  set-IsOf (x ∷ tcs) topic zero (suc j) tc t at kept h = h
  set-IsOf (x ∷ tcs) topic (suc i) zero tc t at kept h = h
  set-IsOf (x ∷ tcs) topic (suc i) (suc j) tc t at kept h = set-IsOf tcs topic i j tc t at kept h
