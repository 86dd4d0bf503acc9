-- ===== src/TopicProducer/Create/Adopted.antt =====
-- The schema id and version that a created producer sends with its messages.
use danube_py.Prelude.{ℕ, some, ◌≡◌}
use danube_py.Errors.{ok}
use danube_py.Exec.{Exec}
use danube_py.Exec.Steps.{Steps}
use danube_py.Exec.Ensures.{Ensures}
use danube_py.Env.{Env}
use danube_py.Env.Api.{SchemaReference}
use danube_py.Client.{Client}
use danube_py.Registry.{SchemaInfo, get_latest_schema}
use danube_py.TopicProducer.{Session}
use danube_py.TopicProducer.Schema.Resolved.{Meets}

module _ {E : Env} where
  -- The producer has the id of the schema that the registry gave as the latest one, and a version that
  -- meets the reference.
  pub record Adopted (ref : SchemaReference) (s : Session E) : Type 0 where
    pub before : Client E
    pub latest : SchemaInfo
    pub version : ℕ
    pub asked : (get_latest_schema ref.subject before).0 ≡ ok latest
    pub schema_id : s.this.schema_id ≡ some latest.schema_id
    pub schema_version : s.this.schema_version ≡ some version
    pub meets : Meets ref.version_ref latest.version version

  abbrev HasReference : SchemaReference → Session E → Type 0
  HasReference ref s = s.this.schema_ref ≡ some ref
