-- ===== src/Connection.antt =====
-- danube/connection_manager.py: the cache of channels, and how a channel is opened.
pub mod Prefix
pub mod Scheme
pub mod Cache
pub mod Opened
pub mod Growth
pub mod Refinement
use danube_py.Prelude.{
  String, Bool, true, false, not, ◌&&◌, Option, none, some, List, [], ◌∷◌, ◌++◌, str_eq,
  if◌then◌else◌,
}
use danube_py.Errors.{Error}
use danube_py.Exec.{Exec, pure, gets, modify, state, zoom, ◌>>=◌, ◌>>◌}
use danube_py.Env.{Env}
use danube_py.Client.{BrokerAddress, ConnectionOptions, RpcConnection, Connections, Client, outside}
use Prefix.{drop_prefix?}

abbrev pub bool_eq : Bool → Bool → Bool
bool_eq true b = b
bool_eq false b = not b

-- The equality of the frozen dataclass `BrokerAddress`, field by field.
abbrev pub same_key : BrokerAddress → BrokerAddress → Bool
same_key a b =
    str_eq a.connect_url b.connect_url
    && (str_eq a.broker_url b.broker_url && bool_eq a.proxy b.proxy)

-- The key of a connection.
unfoldable pub connection_key : String → String → BrokerAddress
connection_key broker_url connect_url = record {
  connect_url = connect_url;
  broker_url = broker_url;
  proxy = not (str_eq broker_url connect_url);
}

-- `target` without the first of the two prefixes that it begins with
unfoldable pub strip_scheme : String → String
strip_scheme target = elim (drop_prefix? "https://" target) [
  | some rest ↦ rest
  | none ↦ elim (drop_prefix? "http://" target) [ some rest ↦ rest | none ↦ target ]
]

module _ {E : Env} where
  -- `dict.get`
  unfoldable pub lookup : BrokerAddress → Connections E → Option (RpcConnection E)
  lookup key [] = none
  lookup key ((k, conn) ∷ rest) = if same_key k key then some conn else lookup key rest

  unfoldable pub resolve_token : ConnectionOptions E → Exec E.World String
  unfolding pure
  resolve_token o = elim o.token_supplier [ some supplier ↦ supplier | none ↦ pure o.token ]

  -- `self.options.tls_credentials or grpc.ssl_channel_credentials()`
  abbrev pub credentials : ConnectionOptions E → E.Credentials
  credentials o = elim o.tls_credentials [
    | some c ↦ c
    | none ↦ E.ssl_channel_credentials none none none
  ]

  unfoldable pub create_channel : ConnectionOptions E → String → Exec E.World E.Channel
  unfolding state
  create_channel o connect_url =
      let target = strip_scheme connect_url in
      state
        (if o.use_tls then E.secure_channel target (credentials o) else E.insecure_channel target)

  -- The dict has no entry of this key yet, so the new one comes last.
  unfoldable pub open_connection : BrokerAddress → Exec (Client E) (RpcConnection E)
  unfolding ◌>>=◌ pure gets modify outside create_channel
  open_connection key = do
    options ← gets λ c. c.manager.options
    channel ← outside (create_channel options key.connect_url)
    let conn : RpcConnection E = record { channel = channel }
    modify λ c. record c {
      manager = record (c.manager) { connections = c.manager.connections ++ ((key, conn) ∷ []) };
    }
    pure conn

  unfoldable pub get_connection : String → String → Exec (Client E) (RpcConnection E)
  unfolding ◌>>=◌ pure gets open_connection lookup connection_key
  get_connection broker_url connect_url =
      let key = connection_key broker_url connect_url in
      (gets λ c. lookup key c.manager.connections) >>= λ found. elim found [
        | some conn ↦ pure conn
        | none ↦ open_connection key
      ]
