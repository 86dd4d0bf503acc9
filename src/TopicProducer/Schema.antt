-- ===== src/TopicProducer/Schema.antt =====
-- `TopicProducer._resolve_schema_metadata`: the id and the version that the producer will send.
pub mod Resolved
pub mod Asking
use danube_py.Prelude.{ℕ, String, Bool, Option, none, some, ltb, ◌==◌, ◌<>◌, decimal, if◌then◌else◌}
use danube_py.Errors.{value_error}
use danube_py.Exec.{Exec, pure, raise, ◌>>=◌}
use danube_py.Env.{Env}
use danube_py.Env.Api.{SchemaReference, VersionRef, unset, use_latest, pinned_version, min_version}
use danube_py.Registry.{SchemaInfo, get_latest_schema, get_schema_version}
use danube_py.TopicProducer.{Session, get_this, on_client}

abbrev pub missing_pinned : SchemaReference → ℕ → String
missing_pinned ref version =
    "pinned version " <> decimal version <> " does not exist for subject " <> ref.subject

abbrev pub below_minimum : SchemaReference → ℕ → SchemaInfo → String
below_minimum ref version latest =
    "latest version "
    <> decimal latest.version
    <> " does not meet minimum "
    <> decimal version
    <> " for subject "
    <> ref.subject

module _ {E : Env} where
  abbrev pub id_and_version : SchemaInfo → Exec (Session E) (ℕ × ℕ)
  id_and_version info = pure (info.schema_id, info.version)

  unfoldable pub pinned : SchemaReference → ℕ → SchemaInfo → Exec (Session E) (ℕ × ℕ)
  unfolding ◌>>=◌ pure raise on_client get_schema_version
  pinned ref version latest =
      if ltb latest.version version
      then raise (value_error (missing_pinned ref version))
      else if version == latest.version
      then id_and_version latest
      else on_client (get_schema_version latest.schema_id (some version)) >>= id_and_version

  unfoldable pub at_least : SchemaReference → ℕ → SchemaInfo → Exec (Session E) (ℕ × ℕ)
  unfolding pure raise
  at_least ref version latest =
      if ltb latest.version version
      then raise (value_error (below_minimum ref version latest))
      else id_and_version latest

  -- The branches on `WhichOneof("version_ref")`, after the query for the latest version, which is
  -- the first thing in each.
  unfoldable pub check_version :
      SchemaReference → VersionRef → SchemaInfo → Exec (Session E) (ℕ × ℕ)
  unfolding pure pinned at_least
  check_version ref (pinned_version version) latest = pinned ref version latest
  check_version ref (min_version version) latest = at_least ref version latest
  check_version ref (use_latest _) latest = id_and_version latest
  check_version ref unset latest = id_and_version latest

  unfoldable pub resolve_reference : SchemaReference → Exec (Session E) (ℕ × ℕ)
  unfolding ◌>>=◌ on_client get_latest_schema check_version
  resolve_reference ref = do
    latest ← on_client (get_latest_schema ref.subject)
    check_version ref ref.version_ref latest

  abbrev pub resolve : Option SchemaReference → Exec (Session E) (ℕ × ℕ)
  resolve none = raise (value_error "schema reference is None")
  resolve (some ref) = resolve_reference ref

  unfoldable pub resolve_schema_metadata : Exec (Session E) (ℕ × ℕ)
  unfolding ◌>>=◌ raise get_this resolve_reference
  resolve_schema_metadata = (get_this λ p. p.schema_ref) >>= resolve
