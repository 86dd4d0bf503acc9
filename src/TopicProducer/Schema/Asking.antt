-- ===== src/TopicProducer/Schema/Asking.antt =====
-- To find out the schema version leaves the topic producer as it is.
use danube_py.Prelude.{ℕ, Option, none, some, ◌≡◌, refl, ◌∙◌}
use danube_py.Exec.{Exec}
use danube_py.Exec.Steps.{IsPreorder, Steps, Steps-gets, steps_rules}
use danube_py.Env.{Env}
use danube_py.Env.Api.{SchemaReference, VersionRef, unset, use_latest, pinned_version, min_version}
use danube_py.Client.{Client}
use danube_py.Registry.{SchemaInfo}
use danube_py.TopicProducer.{TopicProducer, Session, on_client, get_this}
use danube_py.TopicProducer.Schema.{
  pinned, check_version, resolve_reference, resolve, resolve_schema_metadata,
}

module _ {E : Env} where
  pub record Asks (s t : Session E) : Type 0 where
    pub this : t.this ≡ s.this

  Asks-preorder : IsPreorder Asks
  Asks-preorder = record {
    reflexive = λ s. record { this = refl };
    transitive = λ s t u f g. record { this = g.this ∙ f.this };
  }

  on_client-Asks : {A : Type 0} (m : Exec (Client E) A) → Steps Asks (on_client m)
  unfolding on_client
  on_client-Asks m = record { at = λ s. record { this = refl } }

  get_this-Asks : {A : Type 0} (f : TopicProducer E → A) → Steps Asks (get_this f)
  unfolding get_this
  get_this-Asks f = Steps-gets Asks-preorder _

ruleset asks_rules = (steps_rules, Asks-preorder, on_client-Asks, get_this-Asks)

module _ {E : Env} where
  pinned-Asks :
      (ref : SchemaReference) (version : ℕ) (latest : SchemaInfo)
      → Steps (Asks {E = E}) (pinned ref version latest)
  unfolding pinned
  pinned-Asks ref version latest = search asks_rules depth 7

  check_version-Asks :
      (ref : SchemaReference) (v : VersionRef) (latest : SchemaInfo)
      → Steps (Asks {E = E}) (check_version ref v latest)
  unfolding check_version
  check_version-Asks ref unset latest = search asks_rules
  check_version-Asks ref (use_latest b) latest = search asks_rules
  check_version-Asks ref (pinned_version v) latest = pinned-Asks ref v latest
  check_version-Asks ref (min_version v) latest = search asks_rules

  resolve-Asks : (ref : Option SchemaReference) → Steps (Asks {E = E}) (resolve ref)
  unfolding resolve_reference
  resolve-Asks none = search asks_rules
  resolve-Asks (some ref) = search (asks_rules, check_version-Asks)

  pub resolve_schema_metadata-Asks : Steps (Asks {E = E}) resolve_schema_metadata
  unfolding resolve_schema_metadata
  resolve_schema_metadata-Asks = search (asks_rules, resolve-Asks)
