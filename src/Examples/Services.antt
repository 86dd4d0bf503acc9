-- ===== src/Examples/Services.antt =====
-- The results on the shared services and the router at concrete inputs.
use danube_py.Prelude.{
  ℕ, ◌+◌, ◌*◌, ◌/◌, ◌≤◌, ◌<◌, String, ◌<>◌, pos, true, false, none, [], ◌∷◌, ◌++◌, ◌≡◌, ◌≢◌, refl,
  arith, str_eq, eq_iff, ◌^◌, ◌⊎◌,
}
use danube_py.Errors.{ok, err, unicode_decode_error}
use danube_py.Connection.{strip_scheme}
use danube_py.Connection.Refinement.{serve_all, get_connections, view, get_connections_refine}
use danube_py.Connection.Scheme.{strip_scheme_lem}
use danube_py.Auth.{auth_metadata, internal_broker_header}
use danube_py.Auth.Token.{auth_metadata-values}
use danube_py.Retry
use danube_py.Retry.{insert_proxy_header, linear_backoff, calculate_backoff}
use danube_py.Retry.Backoff.{calculate_backoff_bounds}
use danube_py.Retry.Proxy.{entries, values, proxy_values, insert_proxy_header_lem}
use danube_py.Router.{fnv1a_hash}
use danube_py.Router.RoundRobin.{router_at, nth_pick, round_robin_fair}
use danube_py.Router.Encoding.{encode}
use danube_py.Router.Hash.{fnv1a_64, fnv1a_hash_lem}
use danube_py.Registry.{SchemaInfo, schema_definition_as_string}
use danube_py.Registry.Definition.{schema_definition_as_string_lem}
use danube_py.Examples.World.{clock_env, clock-RandintInRange, client, options}

calculate_backoff_bounds_example :
    (ms : ℕ) × ((calculate_backoff clock_env (Retry.new (pos 0) (pos 0) (pos 0)) 7 0).0 ≡ ok ms)
    × (1 ≤ ms)
    × (linear_backoff (Retry.new (pos 0) (pos 0) (pos 0)) 7 / 2 ≤ ms)
    × (ms ≤ (Retry.new (pos 0) (pos 0) (pos 0)).max_backoff_ms)
    × (ms ≤ (Retry.new (pos 0) (pos 0) (pos 0)).base_backoff_ms * (7 + 1))
calculate_backoff_bounds_example =
    calculate_backoff_bounds clock_env clock-RandintInRange (pos 0) (pos 0) (pos 0) 7 0

round_robin_fair_example :
    (i : ℕ) × (i < 3)
    × (nth_pick i (router_at 2 1) ≡ ok (pos 0))
    × ((j : ℕ) → j < 3 → nth_pick j (router_at 2 1) ≡ ok (pos 0) → j ≡ i)
round_robin_fair_example = round_robin_fair 2 1 0 (omega arith) (omega arith)

apart : (a b : String) → str_eq a b ≡ false → a ≢ b
apart a b e h = ground (arith, e, eq_iff a b)

auth_metadata-values_example :
    (values "authorization" (entries (auth_metadata "secret" "")) ≡ ("Bearer " <> "secret") ∷ [])
    × (values internal_broker_header (entries (auth_metadata "secret" "")) ≡ [])
    × (values "other" (entries (auth_metadata "secret" "")) ≡ [])
auth_metadata-values_example =
    auth_metadata-values "secret" "" "other" (apart _ _ refl) (apart _ _ refl)

insert_proxy_header_lem_example :
    (values "x-danube-broker-url" (entries (insert_proxy_header none "b" true))
      ≡ values "x-danube-broker-url" [] ++ proxy_values true "b")
    × (values "authorization" (entries (insert_proxy_header none "b" true))
        ≡ values "authorization" [])
insert_proxy_header_lem_example =
    insert_proxy_header_lem "authorization" none "b" true (apart _ _ refl)

strip_scheme_lem_example :
    (strip_scheme ("https://" <> "b") ≡ "b") × (strip_scheme ("http://" <> "b") ≡ "b")
strip_scheme_lem_example = strip_scheme_lem "b"

fnv1a_hash_lem_example :
    (fnv1a_hash "key" ≡ fnv1a_64 0xCBF29CE484222325 (encode "key")) × (fnv1a_hash "key" < 2 ^ 64)
fnv1a_hash_lem_example = fnv1a_hash_lem "key"

-- The definition is a euro sign, and a byte that begins a character which does not end.
abbrev broken_schema : SchemaInfo
broken_schema = record {
  schema_id = 3;
  subject = "s";
  version = 1;
  schema_type = "string";
  schema_definition = 0xE2 ∷ 0x82 ∷ 0xAC ∷ 0xC3 ∷ [];
  fingerprint = "f";
}

schema_definition_as_string_lem_example :
    ((s : String) × (encode s ≡ 0xE2 ∷ 0x82 ∷ 0xAC ∷ 0xC3 ∷ [])
      × (schema_definition_as_string broken_schema ≡ ok s))
    ⊎ (((s : String) → encode s ≢ 0xE2 ∷ 0x82 ∷ 0xAC ∷ 0xC3 ∷ [])
        × (schema_definition_as_string broken_schema ≡ err unicode_decode_error))
schema_definition_as_string_lem_example = schema_definition_as_string_lem broken_schema

-- Two addresses, and the first again.
get_connections_refine_example :
    ((get_connections (("b", "b:1") ∷ ("b", "b:2") ∷ ("b", "b:1") ∷ []) client).0
      ≡ ok (serve_all options (("b", "b:1") ∷ ("b", "b:2") ∷ ("b", "b:1") ∷ []) (view client)).0)
    × (view (get_connections (("b", "b:1") ∷ ("b", "b:2") ∷ ("b", "b:1") ∷ []) client).1
        ≡ (serve_all options (("b", "b:1") ∷ ("b", "b:2") ∷ ("b", "b:1") ∷ []) (view client)).1)
get_connections_refine_example =
    get_connections_refine (("b", "b:1") ∷ ("b", "b:2") ∷ ("b", "b:1") ∷ []) client
