-- ===== src/Retry/Proxy.antt =====
-- `insert_proxy_header`, as the receiver of the metadata sees it.
use mathlib.Core.List.{append-nil}
use danube_py.Prelude.{
  String, Bool, true, false, none, some, List, [], ◌∷◌, ◌++◌, ◌≡◌, refl, sym, ◌≢◌, arith, str_eq,
  if◌then◌else◌, eq_iff,
}
use danube_py.Env.{Metadata}
use danube_py.Retry.{insert_proxy_header}

-- The entries of a call's metadata.
abbrev pub entries : Metadata → List (String × String)
entries none = []
entries (some es) = es

-- The values that the metadata holds under a key, in order.
unfoldable pub values : String → List (String × String) → List String
values key [] = []
values key ((k, v) ∷ es) = let rest = values key es in if str_eq k key then v ∷ rest else rest

values-append :
    (key : String) (es fs : List (String × String))
    → values key (es ++ fs) ≡ values key es ++ values key fs
unfolding values
values-append key [] fs = refl
values-append key (e ∷ es) fs = ground (arith, values-append key es fs)

abbrev pub proxy_values : Bool → String → List String
proxy_values true url = url ∷ []
proxy_values false url = []

values-insert_proxy_header :
    (m : Metadata) (url : String) (proxy : Bool)
    → values "x-danube-broker-url" (entries (insert_proxy_header m url proxy))
      ≡ values "x-danube-broker-url" (entries m) ++ proxy_values proxy url
unfolding insert_proxy_header values
values-insert_proxy_header m url false = sym (append-nil _)
values-insert_proxy_header none url true = refl
values-insert_proxy_header (some es) url true = values-append _ es _

values-insert_proxy_header_other :
    (key : String) (m : Metadata) (url : String) (proxy : Bool)
    → key ≢ "x-danube-broker-url"
    → values key (entries (insert_proxy_header m url proxy)) ≡ values key (entries m)
unfolding insert_proxy_header values
values-insert_proxy_header_other key m url false h = refl
values-insert_proxy_header_other key none url true h =
    ground (arith, eq_iff "x-danube-broker-url" key)
values-insert_proxy_header_other key (some es) url true h = ground (
  arith,
  append-nil (values key es),
  values-append key es (("x-danube-broker-url", url) ∷ []),
  eq_iff "x-danube-broker-url" key,
)

-- Under the proxy header's name the receiver sees the values given before and then, exactly in
-- proxy mode, the broker's address; under every other name it sees what was given before.
pub insert_proxy_header_lem :
    (key : String) (m : Metadata) (url : String) (proxy : Bool)
    → key ≢ "x-danube-broker-url"
    → (values "x-danube-broker-url" (entries (insert_proxy_header m url proxy))
        ≡ values "x-danube-broker-url" (entries m) ++ proxy_values proxy url)
      × (values key (entries (insert_proxy_header m url proxy)) ≡ values key (entries m))
insert_proxy_header_lem key m url proxy h =
    (values-insert_proxy_header m url proxy, values-insert_proxy_header_other key m url proxy h)
