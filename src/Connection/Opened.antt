-- ===== src/Connection/Opened.antt =====
-- What `get_connection` does on a hit and on a miss, and how the cached channels were opened.
use danube_py.Prelude.{
  String, Bool, Option, [], ◌∷◌, ◌++◌, some, none, ◌≡◌, refl, sym, subst, ap, ◌∙◌, inl, inr,
  Bool-cases, Option-cases, arith, if◌then◌else◌,
}
use danube_py.Errors.{ok}
use danube_py.Env.{Env, ChannelView}
use danube_py.Client.{BrokerAddress, Connections, RpcConnection, Client}
use danube_py.Connection.{
  connection_key, same_key, lookup, get_connection, credentials, strip_scheme,
}
use danube_py.Connection.Cache.{same_key_iff, lookup-append_single}

module _ {E : Env} where
  -- The channel that a miss opens.
  abbrev pub open_for : Client E → String → E.Channel × E.World
  open_for c url =
      let o = c.manager.options in
      let target = strip_scheme url in
      (if o.use_tls then E.secure_channel target (credentials o) else E.insecure_channel target)
        c.world

  pub get_connection_hit :
      (b a : String) (c : Client E) (conn : RpcConnection E)
      → lookup (connection_key b a) c.manager.connections ≡ some conn
      → get_connection b a c ≡ (ok conn, c)
  unfolding get_connection
  get_connection_hit b a c conn e = rw e refl

  -- The client after a miss.
  abbrev pub with_connection : String → String → Client E → Client E
  with_connection b a c =
      let (channel, w) = open_for c a in
      let conn : RpcConnection E = record { channel = channel } in
      record c {
        manager = record (c.manager) {
          connections = c.manager.connections ++ ((connection_key b a, conn) ∷ []);
        };
        world = w;
      }

  pub get_connection_miss :
      (b a : String) (c : Client E)
      → lookup (connection_key b a) c.manager.connections ≡ none
      → get_connection b a c ≡ (ok (record { channel = (open_for c a).0 }), with_connection b a c)
  unfolding get_connection
  get_connection_miss b a c e = rw e refl

  -- `get_connection` never raises.
  pub get_connection_ok :
      (b a : String) (c : Client E)
      → (conn : RpcConnection E) × ((get_connection b a c).0 ≡ ok conn)
  get_connection_ok b a c =
      elim (Option-cases (lookup (connection_key b a) c.manager.connections)) [
        | inl fresh ↦
            (record { channel = (open_for c a).0 }, ap (λ x. x.0) (get_connection_miss b a c fresh))
        | inr (conn, e) ↦ (conn, ap (λ x. x.0) (get_connection_hit b a c conn e))
      ]

  -- What `get_connection` returned is in the dict.
  pub get_connection_found :
      (b a : String) (c : Client E) {conn : RpcConnection E} {c' : Client E}
      → get_connection b a c ≡ (ok conn, c')
      → lookup (connection_key b a) c'.manager.connections ≡ some conn
  get_connection_found b a c {conn} {c'} h =
      elim (Option-cases (lookup (connection_key b a) c.manager.connections)) [
        | inl fresh ↦ ground (
          arith,
          get_connection_miss b a c fresh,
          lookup-append_single (connection_key b a) c.manager.connections
              (record { channel = (open_for c a).0 }),
        )
        | inr (old, e) ↦ ground (arith, get_connection_hit b a c old e)
      ]

  -- Every cached channel was opened to the connect address of its key, without the scheme, and of its
  -- being secure `P` holds.
  abbrev pub AreOpenedAs : ChannelView E → (Bool → Type 0) → Connections E → Type 0
  AreOpenedAs V P [] = Unit
  AreOpenedAs V P ((k, conn) ∷ rest) =
      (V.target conn.channel ≡ strip_scheme k.connect_url)
      × P (V.is_secure conn.channel)
      × AreOpenedAs V P rest

  open_for_target :
      (V : ChannelView E) (c : Client E) (url : String)
      → V.target (open_for c url).0 ≡ strip_scheme url
  open_for_target V c url = elim (Bool-cases c.manager.options.use_tls) [
    | inl tls ↦ rw tls (V.secure_target _ _ _)
    | inr plain ↦ rw plain (V.insecure_target _ _)
  ]

  open_for_kind :
      (V : ChannelView E) (c : Client E) (url : String)
      → V.is_secure (open_for c url).0 ≡ c.manager.options.use_tls
  open_for_kind V c url = elim (Bool-cases c.manager.options.use_tls) [
    | inl tls ↦ rw tls (V.secure_kind _ _ _)
    | inr plain ↦ rw plain (V.insecure_kind _ _)
  ]

  append-AreOpenedAs :
      (V : ChannelView E) (P : Bool → Type 0) (cs : Connections E) (k : BrokerAddress)
      (conn : RpcConnection E)
      → V.target conn.channel ≡ strip_scheme k.connect_url
      → P (V.is_secure conn.channel)
      → AreOpenedAs V P cs
      → AreOpenedAs V P (cs ++ ((k, conn) ∷ []))
  append-AreOpenedAs V P [] k conn ht hs o = (ht, hs, tt)
  append-AreOpenedAs V P (e ∷ cs) k conn ht hs o =
      (o.0, o.1, append-AreOpenedAs V P cs k conn ht hs o.2)

  pub map-AreOpenedAs :
      (V : ChannelView E) (P Q : Bool → Type 0) (cs : Connections E)
      → ((x : Bool) → P x → Q x)
      → AreOpenedAs V P cs
      → AreOpenedAs V Q cs
  map-AreOpenedAs V P Q [] f o = tt
  map-AreOpenedAs V P Q (e ∷ cs) f o = (o.0, f _ o.1, map-AreOpenedAs V P Q cs f o.2)

  -- An entry found in such a dict is such a channel.
  lookup-AreOpenedAs :
      (V : ChannelView E) (P : Bool → Type 0) (cs : Connections E) (b a : String)
      (conn : RpcConnection E)
      → AreOpenedAs V P cs
      → lookup (connection_key b a) cs ≡ some conn
      → (V.target conn.channel ≡ strip_scheme a) × P (V.is_secure conn.channel)
  unfolding lookup connection_key
  lookup-AreOpenedAs V P [] b a conn o h = cc
  lookup-AreOpenedAs V P ((k, x) ∷ cs) b a conn o h =
      elim (Bool-cases (same_key k (connection_key b a))) [
        | inl same ↦
            let e = some-inj (rw same at h) in
            let key = (same_key_iff k (connection_key b a)).0 same in
            (
              ap (λ y. V.target y.channel) (sym e) ∙ o.0 ∙ ap (λ y. strip_scheme y.connect_url) key,
              subst (λ y. P (V.is_secure y.channel)) e o.1,
            )
        | inr other ↦ lookup-AreOpenedAs V P cs b a conn o.2 (rw other at h)
      ]
    where
      some-inj :
          {y z : RpcConnection E} → ◌≡◌ {A = Option (RpcConnection E)} (some y) (some z) → y ≡ z
      some-inj e = cc

key_connect_url : (b a : String) → (connection_key b a).connect_url ≡ a
unfolding connection_key
key_connect_url b a = refl

module _ {E : Env} where
  pub with_connection-AreOpenedAs :
      (V : ChannelView E) (P : Bool → Type 0) (b a : String) (c : Client E)
      → P c.manager.options.use_tls
      → AreOpenedAs V P c.manager.connections
      → AreOpenedAs V P (with_connection b a c).manager.connections
  with_connection-AreOpenedAs V P b a c p o =
      append-AreOpenedAs V P c.manager.connections (connection_key b a) _
        (open_for_target V c a ∙ ap strip_scheme (sym (key_connect_url b a)))
        (subst P (sym (open_for_kind V c a)) p) o

  -- In a client whose channels are so, and would be so if it opened one, the connection that
  -- `get_connection` returns, cached or new, has a channel to the connect address without its scheme,
  -- and `P` holds of its being secure.
  pub get_connection_channel :
      (V : ChannelView E) (P : Bool → Type 0) (b a : String) (c : Client E) {conn : RpcConnection E}
      {c' : Client E}
      → P c.manager.options.use_tls
      → AreOpenedAs V P c.manager.connections
      → get_connection b a c ≡ (ok conn, c')
      → (V.target conn.channel ≡ strip_scheme a) × P (V.is_secure conn.channel)
  get_connection_channel V P b a c {conn} {c'} p o h =
      lookup-AreOpenedAs V P c'.manager.connections b a conn after (get_connection_found b a c h)
    where
      after : AreOpenedAs V P c'.manager.connections
      after = elim (Option-cases (lookup (connection_key b a) c.manager.connections)) [
        | inl fresh ↦
            subst (λ x. AreOpenedAs V P x.1.manager.connections)
              (sym (get_connection_miss b a c fresh) ∙ h)
              (with_connection-AreOpenedAs V P b a c p o)
        | inr (old, e) ↦
            subst (λ x. AreOpenedAs V P x.1.manager.connections)
              (sym (get_connection_hit b a c old e) ∙ h) o
      ]
