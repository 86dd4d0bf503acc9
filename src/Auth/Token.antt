-- ===== src/Auth/Token.antt =====
-- What the broker reads in the metadata that `AuthService` attaches.
use danube_py.Prelude.{
  String, ◌<>◌, none, some, [], ◌∷◌, ◌≡◌, ◌≢◌, refl, arith, str_eq, eq_iff, if◌then◌else◌,
}
use danube_py.Errors.{Error, ok, err}
use danube_py.Exec.{◌>>=◌, zoom}
use danube_py.Env.{Env}
use danube_py.Client.{Client, TokenSupplier, outside}
use danube_py.Connection.{resolve_token}
use danube_py.Retry.Proxy.{entries, values}
use danube_py.Auth.{internal_broker_header, auth_metadata, attach_token_if_needed}

-- The broker reads a bearer token exactly if the token is not empty, the name of an internal broker
-- exactly if that is not empty, and under any other name nothing.
pub auth_metadata-values :
    (token internal key : String)
    → key ≢ "authorization"
    → key ≢ internal_broker_header
    → let es = entries (auth_metadata token internal) in
      (values "authorization" es ≡ (if str_eq token "" then [] else ("Bearer " <> token) ∷ []))
      × (values internal_broker_header es ≡ (if str_eq internal "" then [] else internal ∷ []))
      × (values key es ≡ [])
unfolding auth_metadata values
auth_metadata-values token internal key h k =
    ground (arith, eq_iff "authorization" key, eq_iff internal_broker_header key)

module _ {E : Env} where
  -- A token supplier is asked anew in every call, in the world of that call, and its exception is
  -- that of the call.
  attach_token_supplied :
      (addr : String) (c : Client E) (supplier : TokenSupplier E) (w : E.World)
      → c.manager.options.token_supplier ≡ some supplier
      → ((t : String)
          → supplier c.world ≡ (ok t, w)
          → attach_token_if_needed addr c
            ≡ (ok (auth_metadata t c.manager.options.internal_broker), record c { world = w }))
        × ((e : Error)
            → supplier c.world ≡ (err e, w)
            → attach_token_if_needed addr c ≡ (err e, record c { world = w }))
  unfolding attach_token_if_needed
  attach_token_supplied addr c supplier w h = (
    λ t e. rw (h, ◌>>=◌, outside, zoom, resolve_token) (rw e refl),
    λ e p. rw (h, ◌>>=◌) (rw p refl),
  )

  -- Without a supplier every call carries the token of the settings, and nothing happens outside.
  pub attach_token_static :
      (addr : String) (c : Client E)
      → c.manager.options.token_supplier ≡ none
      → attach_token_if_needed addr c
        ≡ (ok (auth_metadata c.manager.options.token c.manager.options.internal_broker), c)
  unfolding attach_token_if_needed
  attach_token_static addr c h = rw h refl
