-- ===== src/Auth.antt =====
-- danube/auth_service.py: the metadata that every call of the client carries.
pub mod Token
use danube_py.Prelude.{
  String, Bool, not, Option, none, some, List, [], ◌∷◌, ◌++◌, ◌<>◌, str_eq, if◌then◌else◌,
}
use danube_py.Exec.{Exec, pure, gets, ◌>>=◌}
use danube_py.Env.{Env, Metadata}
use danube_py.Client.{Client, outside}
use danube_py.Connection.{resolve_token}

abbrev pub internal_broker_header : String
internal_broker_header = "x-danube-internal-broker"

-- The truth of a text
abbrev pub is_truthy : String → Bool
is_truthy s = not (str_eq s "")

-- `metadata if metadata else None`
abbrev pub non_empty : List (String × String) → Metadata
non_empty [] = none
non_empty (e ∷ es) = some (e ∷ es)

unfoldable pub auth_metadata : String → String → Metadata
auth_metadata token internal_broker =
    let bearer : List (String × String) =
      if is_truthy token then ("authorization", "Bearer " <> token) ∷ [] else [] in
    non_empty (
      if is_truthy internal_broker
      then bearer ++ ((internal_broker_header, internal_broker) ∷ [])
      else bearer)

module _ {E : Env} where
  -- The address is not looked at.
  unfoldable pub attach_token_if_needed : String → Exec (Client E) Metadata
  unfolding pure gets ◌>>=◌ outside resolve_token auth_metadata
  attach_token_if_needed addr = do
    options ← gets λ c. c.manager.options
    token ← outside (resolve_token options)
    pure (auth_metadata token options.internal_broker)
