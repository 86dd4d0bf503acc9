-- ===== src/Connection/Refinement.antt =====
-- What `ConnectionManager` promises, apart from how it keeps its dict: a partial map from pairs of addresses
-- to connections, in which a request enters what it does not find.
use danube_py.Prelude.{
  String, none, some, Option, not, str_eq, ◌&&◌, eq_iff, List, [], ◌∷◌, ◌++◌, ◌≡◌, refl, sym, ap,
  ◌∙◌, inl, inr, Option-cases, Bool-cases, if◌then◌else◌,
}
use danube_py.Errors.{ok}
use danube_py.Exec.{Exec, pure, ◌>>=◌}
use danube_py.Exec.Inversion.{bind_step}
use mathlib.Core.Path.{fun_ext}
use danube_py.Env.{Env}
use danube_py.Client.{BrokerAddress, Connections, RpcConnection, ConnectionOptions, Client}
use danube_py.Connection.{
  same_key, connection_key, lookup, credentials, strip_scheme, get_connection,
}
use danube_py.Connection.Cache.{same_key_iff, lookup-append_some, lookup-append_none}
use danube_py.Connection.Opened.{open_for, get_connection_hit, get_connection_miss}

-- The key of a pair of addresses: both, and whether they differ.
abbrev pub pair_key : String → String → BrokerAddress
pair_key b a = record { connect_url = a; broker_url = b; proxy = not (str_eq b a) }

same_pair :
    (b a b' a' : String) → same_key (pair_key b a) (pair_key b' a') ≡ (str_eq b b' && str_eq a a')
same_pair b a b' a' = elim (Bool-cases (str_eq a a')) [
  | inl same ↦ elim (Bool-cases (str_eq b b')) [
    | inl too ↦
        (same_key_iff (pair_key b a) (pair_key b' a')).1
          (ap (pair_key b) ((eq_iff a a').0 same) ∙ ap (λ x. pair_key x a') ((eq_iff b b').0 too))
        ∙ sym (rw (same, too) refl)
    | inr other ↦ rw (same, other) refl
  ]
  | inr apart ↦ elim (Bool-cases (str_eq b b')) [
    | inl same ↦ rw (apart, same) refl
    | inr other ↦ rw (apart, other) refl
  ]
]

module _ (E : Env) where
  -- The connection of each broker address and address to connect to, in no order, and the world in which channels are opened.
  pub record Known : Type 0 where
    pub known : String → String → Option (RpcConnection E)
    pub world : E.World

module _ {E : Env} where
  -- A new connection for one pair of addresses; the other pairs keep theirs.
  abbrev pub enter :
      String
      → String
      → RpcConnection E
      → (String → String → Option (RpcConnection E))
      → String
      → String
      → Option (RpcConnection E)
  enter b a conn known b' a' = if str_eq b b' && str_eq a a' then some conn else known b' a'

  abbrev pub opened_for : ConnectionOptions E → String → E.World → E.Channel × E.World
  opened_for o url w =
      let target = strip_scheme url in
      (if o.use_tls then E.secure_channel target (credentials o) else E.insecure_channel target) w

  -- One request, for what the map has at its addresses.
  abbrev pub serve_found :
      ConnectionOptions E
      → String
      → String
      → Option (RpcConnection E)
      → Known E
      → RpcConnection E × Known E
  serve_found o b a (some conn) s = (conn, s)
  serve_found o b a none s =
      let (channel, w) = opened_for o a s.world in
      let conn : RpcConnection E = record { channel = channel } in
      (conn, record { known = enter b a conn s.known; world = w })

  abbrev pub serve_all :
      ConnectionOptions E → List (String × String) → Known E → List (RpcConnection E) × Known E
  serve_all o [] s = ([], s)
  serve_all o ((b, a) ∷ rest) s =
      let (conn, t) = serve_found o b a (s.known b a) s in
      let (conns, u) = serve_all o rest t in (conn ∷ conns, u)

  -- The same requests, one after the other, to the manager of the client.
  unfoldable pub get_connections : List (String × String) → Exec (Client E) (List (RpcConnection E))
  unfolding ◌>>=◌ pure get_connection
  get_connections [] = pure []
  get_connections ((broker_url, connect_url) ∷ rest) = do
    conn ← get_connection broker_url connect_url
    conns ← get_connections rest
    pure (conn ∷ conns)

  -- What the map has of a client.
  abbrev pub view : Client E → Known E
  view c = record { known = λ b a. lookup (pair_key b a) c.manager.connections; world = c.world }

  lookup-appended :
      (key k : BrokerAddress) (cs : Connections E) (conn : RpcConnection E)
      → lookup key cs ≡ none
      → lookup k (cs ++ ((key, conn) ∷ [])) ≡ (if same_key key k then some conn else lookup k cs)
  unfolding lookup
  lookup-appended key k cs conn h = elim (Option-cases (lookup k cs)) [
    | inl absent ↦
        lookup-append_none k cs ((key, conn) ∷ []) absent
        ∙ sym (ap (λ o. if same_key key k then some conn else o) absent)
    | inr (other, e) ↦ elim (Bool-cases (same_key key k)) [
      | inl same ↦
          absurd (clash other (sym h ∙ ap (λ j. lookup j cs) ((same_key_iff key k).0 same) ∙ e))
      | inr apart ↦
          lookup-append_some k cs ((key, conn) ∷ []) other e
          ∙ sym (ap (λ b. if b then some conn else lookup k cs) apart ∙ e)
    ]
  ]
    where
      clash : (other : RpcConnection E) → ◌≡◌ {A = Option (RpcConnection E)} none (some other) → ⊥
      clash other e = cc

  lookup-entered :
      (b a b' a' : String) (cs : Connections E) (conn : RpcConnection E)
      → lookup (pair_key b a) cs ≡ none
      → lookup (pair_key b' a') (cs ++ ((pair_key b a, conn) ∷ []))
        ≡ enter b a conn (λ x y. lookup (pair_key x y) cs) b' a'
  lookup-entered b a b' a' cs conn h =
      lookup-appended (pair_key b a) (pair_key b' a') cs conn h
      ∙ ap (λ t. if t then some conn else lookup (pair_key b' a') cs) (same_pair b a b' a')

  -- One request to the manager does what the map does.
  get_connection-serves :
      (b a : String) (c : Client E)
      → let (conn, t) =
          serve_found c.manager.options b a
            (lookup (pair_key b a) c.manager.connections)
            (view c) in
        ((get_connection b a c).0 ≡ ok conn)
        × (view (get_connection b a c).1 ≡ t)
        × ((get_connection b a c).1.manager.options ≡ c.manager.options)
  unfolding connection_key
  get_connection-serves b a c =
      let key = pair_key b a in
      elim (Option-cases (lookup key c.manager.connections)) [
        | inl absent ↦
            let cs = c.manager.connections in
            let (channel, w) = open_for c a in
            rw (get_connection_miss b a c absent, absent)
              (
                refl,
                ap {A = String → String → Option (RpcConnection E)}
                    (λ f. record { known = f; world = w })
                    (fun_ext λ b'.
                      fun_ext
                        λ a'. lookup-entered b a b' a' cs (record { channel = channel }) absent),
                refl,
              )
        | inr (conn, e) ↦ rw (get_connection_hit b a c conn e, e) (refl, refl, refl)
      ]

  -- For any sequence of requests the manager gives the connections that the map gives, leaves the dict that
  -- stands for the map, and has opened the same channels: one for each pair that was not there.
  pub get_connections_refine :
      (requests : List (String × String)) (c : Client E)
      → let (conns, t) = serve_all c.manager.options requests (view c) in
        ((get_connections requests c).0 ≡ ok conns) × (view (get_connections requests c).1 ≡ t)
  unfolding get_connections pure
  get_connections_refine [] c = (refl, refl)
  get_connections_refine ((b, a) ∷ rest) c =
      let o = c.manager.options in
      let (conn, t) = serve_found o b a (lookup (pair_key b a) c.manager.connections) (view c) in
      let (e, v, kept) = get_connection-serves b a c in
      let d = (get_connection b a c).1 in
      let (f, w) = get_connections_refine rest d in
      let same = ap (λ p. serve_all p rest (view d)) kept ∙ ap (serve_all o rest) v in
      let reached =
        bind_step (get_connection b a)
          (λ conn. get_connections rest >>= λ conns. pure (conn ∷ conns)) c e
        ∙ bind_step (get_connections rest) (λ conns. pure (conn ∷ conns)) d f in
      (
        ap (λ x. x.0) reached ∙ ap (λ x. ok (conn ∷ x.0)) same,
        ap (λ x. view x.1) reached ∙ w ∙ ap (λ x. x.1) same,
      )
