-- ===== src/Program/Settings.antt =====
-- The settings of a client that it shares with its builder, and the channels that are opened by them.
use danube_py.Prelude.{Bool, true, false, not, ◌||◌, ◌≡◌, refl, sym, ap, ◌∙◌, subst, if◌then◌else◌}
use danube_py.Env.{Env, ChannelView}
use danube_py.Client.{Client}
use danube_py.ClientBuilder.Guarded.{IsGuarded, configure_tls, configure-IsGuarded}
use danube_py.Connection.Growth.{Grows}
use danube_py.Connection.Opened.{AreOpenedAs, map-AreOpenedAs}
use danube_py.Program.{Program, builder_of, Reach, here, later}
use danube_py.Program.Growth.{Step_cases}

-- What a channel may be, if TLS was `start` at first and is `now`.
abbrev pub may_be : Bool → Bool → Bool → Bool
may_be start now secure = if start then secure else (not secure || now)

pub may_be_lem :
    (start now secure : Bool)
    → (start ≡ true → now ≡ true)
    → may_be start now secure ≡ true
    → (secure ≡ true → now ≡ true) × (now ≡ start → secure ≡ start)
may_be_lem true now true h p = (λ _. h refl, λ _. refl)
may_be_lem true now false h p = (λ e. cc, λ e. p)
may_be_lem false true secure h p = (λ _. refl, λ e. cc)
may_be_lem false false true h p = cc
may_be_lem false false false h p = (λ e. e, λ _. refl)

pub may_be_now : (start now : Bool) → (start ≡ true → now ≡ true) → may_be start now now ≡ true
may_be_now true now h = h refl
may_be_now false true h = refl
may_be_now false false h = refl

may_be_later :
    (start now next secure : Bool)
    → (now ≡ true → next ≡ true)
    → may_be start now secure ≡ true
    → may_be start next secure ≡ true
may_be_later true now next secure h p = p
may_be_later false true next true h p = h refl
may_be_later false now next false h p = refl
may_be_later false false next true h p = cc

module _ {E : Env} where
  pub Reach-IsGuarded :
      {s t : Program E}
      → Reach s t
      → IsGuarded s.client.manager.options
      → IsGuarded t.client.manager.options
  Reach-IsGuarded here g = g
  Reach-IsGuarded (later r st) g =
      Step_cases (λ c d. IsGuarded c.manager.options → IsGuarded d.manager.options) st
        (λ c d e k. subst IsGuarded (sym e.options) k)
        (λ c call uri b w e k. configure-IsGuarded call (builder_of uri c) c.world e k)
        (Reach-IsGuarded r g)

  -- TLS is on if it was at first, and the channels are what they may be.
  pub record AreSettled (V : ChannelView E) (start : Bool) (c : Client E) : Type 0 where
    pub kept : start ≡ true → c.manager.options.use_tls ≡ true
    pub opened :
        AreOpenedAs V (λ x. may_be start c.manager.options.use_tls x ≡ true) c.manager.connections

  Grows-AreSettled :
      (V : ChannelView E) (start : Bool) (c d : Client E)
      → Grows c d
      → AreSettled V start c
      → AreSettled V start d
  Grows-AreSettled V start c d g a =
      let same = ap (λ o. o.use_tls) g.options in
      record {
        kept = λ e. same ∙ a.kept e;
        opened =
            subst (λ tls. AreOpenedAs V (λ x. may_be start tls x ≡ true) d.manager.connections)
              (sym same)
              (g.opened V (may_be start c.manager.options.use_tls)
                (may_be_now start c.manager.options.use_tls a.kept) a.opened);
      }

  pub Reach-AreSettled :
      (V : ChannelView E) (start : Bool) {s t : Program E}
      → Reach s t
      → AreSettled V start s.client
      → AreSettled V start t.client
  Reach-AreSettled V start here a = a
  Reach-AreSettled V start (later r st) a =
      Step_cases (λ c d. AreSettled V start c → AreSettled V start d) st (Grows-AreSettled V start)
        (λ c call uri b w e k.
          let on = configure_tls call (builder_of uri c) c.world e in
          record {
            kept = λ h. on (k.kept h);
            opened =
                map-AreOpenedAs V _ _ c.manager.connections
                  (λ x. may_be_later start c.manager.options.use_tls b.options.use_tls x on)
                  k.opened;
          })
        (Reach-AreSettled V start r a)
