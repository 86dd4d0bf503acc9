-- ===== src/Connection/Cache.antt =====
-- The cache of connections over the life of a client: a key that has a connection keeps it, no key
-- is listed twice, and a second request opens no channel.
use danube_py.Prelude.{true, none, some, [], ◌∷◌, ◌++◌, ◌≡◌, refl, ◌∙◌, arith, eq_iff, ◌↔◌}
use danube_py.Env.{Env}
use danube_py.Client.{BrokerAddress, RpcConnection, Connections}
use danube_py.Connection.{same_key, connection_key, lookup}

pub same_key_iff : (a b : BrokerAddress) → (same_key a b ≡ true) ↔ (a ≡ b)
same_key_iff a b =
    ground (arith, eq_iff a.connect_url b.connect_url, eq_iff a.broker_url b.broker_url)

module _ {E : Env} where
  -- Keys are listed once, and the proxy flag of a key says whether its two addresses differ.
  abbrev pub AreValid : Connections E → Type 0
  AreValid [] = Unit
  AreValid ((k, _) ∷ rest) =
      (k ≡ connection_key k.broker_url k.connect_url) × (lookup k rest ≡ none) × AreValid rest

  -- Whatever is found in `cs` is found in `ds`.
  abbrev pub Extends : Connections E → Connections E → Type 0
  Extends cs ds =
      (k : BrokerAddress) (conn : RpcConnection E)
      → lookup k cs ≡ some conn
      → lookup k ds ≡ some conn

  pub lookup-append_some :
      (k : BrokerAddress) (cs ds : Connections E) (conn : RpcConnection E)
      → lookup k cs ≡ some conn
      → lookup k (cs ++ ds) ≡ some conn
  unfolding lookup
  lookup-append_some k [] ds conn h = cc
  lookup-append_some k (e ∷ cs) ds conn h = ground (arith, lookup-append_some k cs ds conn)

  pub lookup-append_none :
      (k : BrokerAddress) (cs ds : Connections E)
      → lookup k cs ≡ none
      → lookup k (cs ++ ds) ≡ lookup k ds
  unfolding lookup
  lookup-append_none k [] ds h = refl
  lookup-append_none k (e ∷ cs) ds h = ground (arith, lookup-append_none k cs ds)

  pub append-AreValid :
      (cs : Connections E) (k : BrokerAddress) (conn : RpcConnection E)
      → k ≡ connection_key k.broker_url k.connect_url
      → lookup k cs ≡ none
      → AreValid cs
      → AreValid (cs ++ ((k, conn) ∷ []))
  unfolding lookup
  append-AreValid [] k conn hk h v = (hk, refl, tt)
  append-AreValid (e ∷ cs) k conn hk h v = ground (
    arith,
    append-AreValid cs k conn hk,
    lookup-append_none e.0 cs ((k, conn) ∷ []),
    same_key_iff e.0 k,
    same_key_iff k e.0,
  )

  pub lookup-append_single :
      (k : BrokerAddress) (cs : Connections E) (conn : RpcConnection E)
      → lookup k cs ≡ none
      → lookup k (cs ++ ((k, conn) ∷ [])) ≡ some conn
  unfolding lookup
  lookup-append_single k cs conn h =
      lookup-append_none k cs ((k, conn) ∷ []) h ∙ ground (arith, same_key_iff k k)
