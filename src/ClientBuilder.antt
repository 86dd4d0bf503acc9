-- ===== src/ClientBuilder.antt =====
-- danube/client.py: `DanubeClientBuilder` and the client that it makes.
pub mod Guarded
use danube_py.Prelude.{String, true, false, Option, none, some, []}
use danube_py.Exec.{Exec, pure, ◌>>=◌}
use danube_py.Env.{Env}
use danube_py.Client.{TokenSupplier, ConnectionOptions, Client}

module _ (E : Env) where
  pub record ClientBuilder : Type 0 where
    pub uri : String
    pub options : ConnectionOptions E

-- `if tls_credentials is None`, the default ones.
abbrev pub or_default : (E : Env) → Option E.Credentials → Option E.Credentials
or_default E none = some (E.ssl_channel_credentials none none none)
or_default E (some credentials) = some credentials

-- Python's builder hands its options object itself to the client: a call of the builder after `build`
-- changes the client's settings too. `Program` has that as a step; here a builder is a value.
module _ {E : Env} where
  unfoldable pub new_client : ClientBuilder E
  new_client = record {
    uri = "";
    options = record {
      use_tls = false;
      tls_credentials = none;
      token = "";
      token_supplier = none;
      internal_broker = "";
    };
  }

  unfoldable pub service_url : String → ClientBuilder E → ClientBuilder E
  service_url url b = record b { uri = url }

  abbrev pub set_tls : E.Credentials → ClientBuilder E → ClientBuilder E
  set_tls credentials b = record b {
    options = record (b.options) { tls_credentials = some credentials; use_tls = true };
  }

  unfoldable pub with_tls : String → ClientBuilder E → Exec E.World (ClientBuilder E)
  unfolding ◌>>=◌ pure
  with_tls ca_cert_path b = do
    ca_data ← E.read_file ca_cert_path
    pure (set_tls (E.ssl_channel_credentials (some ca_data) none none) b)

  unfoldable pub with_mtls :
      String → String → String → ClientBuilder E → Exec E.World (ClientBuilder E)
  unfolding ◌>>=◌ pure
  with_mtls ca_cert_path client_cert_path client_key_path b = do
    ca_data ← E.read_file ca_cert_path
    cert_data ← E.read_file client_cert_path
    key_data ← E.read_file client_key_path
    pure (set_tls (E.ssl_channel_credentials (some ca_data) (some key_data) (some cert_data)) b)

  unfoldable pub with_token : String → ClientBuilder E → ClientBuilder E
  with_token token b = record b {
    options = record (b.options) {
      token = token;
      use_tls = true;
      tls_credentials = or_default E b.options.tls_credentials;
    };
  }

  unfoldable pub with_token_supplier : TokenSupplier E → ClientBuilder E → ClientBuilder E
  with_token_supplier supplier b = record b {
    options = record (b.options) {
      token_supplier = some supplier;
      use_tls = true;
      tls_credentials = or_default E b.options.tls_credentials;
    };
  }

  -- The counters of the services start at 1.
  unfoldable pub build : ClientBuilder E → E.World → Client E
  build b w = record {
    uri = b.uri;
    manager = record { options = b.options; connections = [] };
    lookup_id = 1;
    health_id = 1;
    events = [];
    tasks = [];
    world = w;
  }
