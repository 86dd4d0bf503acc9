-- ===== src/TopicProducer/Schema/Resolved.antt =====
-- Which schema version a producer ends up with.
use danube_py.Prelude.{
  ℕ, ◌≤◌, true, false, some, ◌≡◌, ap, sym, ◌∙◌, arith, ltb, ◌==◌, Bool-cases, inl, inr, ltb→ge,
}
use danube_py.Errors.{ok-inj, ok}
use danube_py.Exec.Inversion.{bind_ok}
use danube_py.Exec.{Exec, ◌>>=◌, pure}
use danube_py.Env.{Env, Metadata}
use danube_py.Env.Api.{SchemaReference, VersionRef, unset, use_latest, pinned_version, min_version}
use danube_py.Env.Registry.{GetSchemaResponse}
use danube_py.Client.{Client, outside}
use danube_py.Registry.{
  SchemaInfo, prepare, get_schema_version, get_latest_schema, schema_info_from_proto,
}
use danube_py.TopicProducer.{Session, on_client}
use danube_py.TopicProducer.Schema.{id_and_version, check_version, resolve_reference, pinned}

-- The registry answers a query for a version of a schema with that version of that schema.
pub record AnswersVersion (E : Env) : Type 0 where
  pub exact :
      (ch : E.Channel) (id v : ℕ) (md : Metadata) (w : E.World) {resp : GetSchemaResponse}
      → (E.get_schema ch (record { schema_id = id; version = some v }) md w).0 ≡ ok resp
      → (resp.version ≡ v) × (resp.schema_id ≡ id)

-- What a reference asks of a version, given the latest one.
abbrev pub Meets : VersionRef → ℕ → ℕ → Type 0
Meets (pinned_version v) latest version = (version ≡ v) × (v ≤ latest)
Meets (min_version v) latest version = (version ≡ latest) × (v ≤ latest)
Meets (use_latest _) latest version = version ≡ latest
Meets unset latest version = version ≡ latest

module _ {E : Env} (law : AnswersVersion E) where
  get_schema_version-exact :
      (id v : ℕ) (c : Client E) {info : SchemaInfo}
      → (get_schema_version id (some v) c).0 ≡ ok info
      → (info.version ≡ v) × (info.schema_id ≡ id)
  unfolding get_schema_version
  get_schema_version-exact id v c {info} h =
      let (p, e, same, k) = bind_ok (prepare c.uri) ask_version c h in
      let (resp, answered, same', made) = bind_ok (outside (query p)) answer _ k in
      let (version, found) = law.exact p.1 id v p.0 (prepare c.uri c).1.world answered in
      let fields = ok-inj made in
      (ap (λ i. i.version) (sym fields) ∙ version, ap (λ i. i.schema_id) (sym fields) ∙ found)
    where
      query : Metadata × E.Channel → Exec E.World GetSchemaResponse
      query p = E.get_schema p.1 (record { schema_id = id; version = some v }) p.0

      answer : GetSchemaResponse → Exec (Client E) SchemaInfo
      answer resp = pure (schema_info_from_proto resp)

      ask_version : Metadata × E.Channel → Exec (Client E) SchemaInfo
      ask_version p = outside (query p) >>= answer

  pinned_query :
      (id v : ℕ) (s : Session E) {found version : ℕ}
      → ((on_client (get_schema_version id (some v)) >>= id_and_version) s).0 ≡ ok (found, version)
      → (version ≡ v) × (found ≡ id)
  unfolding on_client pure
  pinned_query id v s h =
      let (info, asked, same, made) =
        bind_ok (on_client (get_schema_version id (some v))) id_and_version s h in
      let (exact, found) = get_schema_version-exact id v s.client asked in
      let fields = ok-inj made in
      (ap (λ q. q.1) (sym fields) ∙ exact, ap (λ q. q.0) (sym fields) ∙ found)

  pinned-Meets :
      (ref : SchemaReference) (v : ℕ) (latest : SchemaInfo) (s : Session E) {id version : ℕ}
      → (pinned ref v latest s).0 ≡ ok (id, version)
      → (version ≡ v) × (v ≤ latest.version) × (id ≡ latest.schema_id)
  unfolding pinned
  pinned-Meets ref v latest s {id} {version} h = elim (Bool-cases (ltb latest.version v)) [
    | inl short ↦ absurd (missing short)
    | inr enough ↦ elim (Bool-cases (v == latest.version)) [
      | inl same ↦
          let (exact, found) = exactly enough same in (exact, ltb→ge latest.version v enough, found)
      | inr older ↦
          let (exact, found) = pinned_query latest.schema_id v s (rw (enough, older) at h) in
          (exact, ltb→ge latest.version v enough, found)
    ]
  ]
    where
      missing : ltb latest.version v ≡ true → ⊥
      missing short = let k = rw short at h in cc

      exactly :
          ltb latest.version v ≡ false
          → (v == latest.version) ≡ true
          → (version ≡ v) × (id ≡ latest.schema_id)
      exactly enough same = let k = rw (enough, same) at h in (ground arith, ground arith)

  -- Every version that `check_version` returns meets the reference.
  check_version-Meets :
      (ref : SchemaReference) (r : VersionRef) (latest : SchemaInfo) (s : Session E)
      {id version : ℕ}
      → (check_version ref r latest s).0 ≡ ok (id, version)
      → Meets r latest.version version × (id ≡ latest.schema_id)
  unfolding check_version
  check_version-Meets ref (pinned_version v) latest s h =
      let (exact, least, found) = pinned-Meets ref v latest s h in ((exact, least), found)
  check_version-Meets ref (min_version v) latest s h = (ground arith, ground arith)
  check_version-Meets ref (use_latest _) latest s h = (ground arith, ground arith)
  check_version-Meets ref unset latest s h = (ground arith, ground arith)

  -- A resolved reference has the id of the latest schema, and a version that meets the reference.
  pub resolve_reference-Meets :
      (ref : SchemaReference) (s : Session E) {id version : ℕ}
      → (resolve_reference ref s).0 ≡ ok (id, version)
      → (latest : SchemaInfo) × ((get_latest_schema ref.subject s.client).0 ≡ ok latest)
        × Meets ref.version_ref latest.version version
        × (id ≡ latest.schema_id)
  unfolding resolve_reference
  resolve_reference-Meets ref s h =
      let (latest, asked, same, made) =
        bind_ok (on_client (get_latest_schema ref.subject)) (check_version ref ref.version_ref) s
          h in
      let (meets, found) = check_version-Meets ref ref.version_ref latest _ made in
      (latest, asked, meets, found)
