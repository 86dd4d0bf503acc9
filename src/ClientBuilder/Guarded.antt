-- ===== src/ClientBuilder/Guarded.antt =====
-- A token leaves the client over TLS only.
use danube_py.Prelude.{String, true, false, none, ◌≡◌, refl, sym, ap, ◌∙◌, subst, arith}
use danube_py.Errors.{ok-inj, ok}
use danube_py.Exec.{Exec, pure}
use danube_py.Exec.Inversion.{bind_ok}
use danube_py.Env.{Env}
use danube_py.Client.{TokenSupplier, ConnectionOptions, Client}
use danube_py.Auth.{attach_token_if_needed, auth_metadata}
use danube_py.Auth.Token.{attach_token_static}
use danube_py.ClientBuilder.{
  ClientBuilder, new_client, service_url, with_tls, with_mtls, with_token, with_token_supplier,
}

module _ {E : Env} where
  -- The builders that a chain of calls on a new builder can give.
  pub data IsChained : ClientBuilder E → Type 0 where
    start : IsChained new_client
    then_service_url :
        (url : String) (b : ClientBuilder E) → IsChained b → IsChained (service_url url b)
    then_tls :
        (path : String) (b c : ClientBuilder E) (w : E.World)
        → IsChained b
        → (with_tls path b w).0 ≡ ok c
        → IsChained c
    then_mtls :
        (ca cert key : String) (b c : ClientBuilder E) (w : E.World)
        → IsChained b
        → (with_mtls ca cert key b w).0 ≡ ok c
        → IsChained c
    then_token :
        (token : String) (b : ClientBuilder E) → IsChained b → IsChained (with_token token b)
    then_token_supplier :
        (supplier : TokenSupplier E) (b : ClientBuilder E)
        → IsChained b
        → IsChained (with_token_supplier supplier b)

  -- Without TLS there is nothing that names the client.
  pub record IsGuarded (o : ConnectionOptions E) : Type 0 where
    pub token : o.use_tls ≡ false → o.token ≡ ""
    pub supplier : o.use_tls ≡ false → o.token_supplier ≡ none
    pub internal : o.internal_broker ≡ ""

  with_tls_options :
      (path : String) (b : ClientBuilder E) (w : E.World) {c : ClientBuilder E}
      → (with_tls path b w).0 ≡ ok c
      → (c.options.use_tls ≡ true) × (c.options.internal_broker ≡ b.options.internal_broker)
  unfolding with_tls pure
  with_tls_options path b w h = let (ca, e, g, k) = bind_ok (E.read_file path) _ w h in ground arith

  with_mtls_options :
      (ca cert key : String) (b : ClientBuilder E) (w : E.World) {c : ClientBuilder E}
      → (with_mtls ca cert key b w).0 ≡ ok c
      → (c.options.use_tls ≡ true) × (c.options.internal_broker ≡ b.options.internal_broker)
  unfolding with_mtls pure
  with_mtls_options ca cert key b w h =
      let (a, e, g, k) = bind_ok (E.read_file ca) _ w h in
      let (a2, e2, g2, k2) = bind_ok (E.read_file cert) _ _ k in
      let (a3, e3, g3, k3) = bind_ok (E.read_file key) _ _ k2 in ground arith

  secured :
      (o p : ConnectionOptions E)
      → IsGuarded o
      → (p.use_tls ≡ true) × (p.internal_broker ≡ o.internal_broker)
      → IsGuarded p
  secured o p g (t, i) = record {
    token = λ h. ground arith;
    supplier = λ h. ground arith;
    internal = i ∙ g.internal;
  }

  pub chained-IsGuarded : (b : ClientBuilder E) → IsChained b → IsGuarded b.options
  unfolding new_client service_url with_token with_token_supplier
  chained-IsGuarded _ start = record { token = λ h. refl; supplier = λ h. refl; internal = refl }
  chained-IsGuarded _ (then_service_url url b h) = chained-IsGuarded b h
  chained-IsGuarded _ (then_tls path b c w h e) =
      secured b.options c.options (chained-IsGuarded b h) (with_tls_options path b w e)
  chained-IsGuarded _ (then_mtls ca cert key b c w h e) =
      secured b.options c.options (chained-IsGuarded b h) (with_mtls_options ca cert key b w e)
  chained-IsGuarded _ (then_token token b h) =
      secured b.options _ (chained-IsGuarded b h) (refl, refl)
  chained-IsGuarded _ (then_token_supplier supplier b h) =
      secured b.options _ (chained-IsGuarded b h) (refl, refl)

-- A method of the builder.
module _ (E : Env) where
  pub data BuilderCall : Type 0 where
    sets_url : String → BuilderCall
    uses_tls : String → BuilderCall
    uses_mtls : String → String → String → BuilderCall
    uses_token : String → BuilderCall
    uses_supplier : TokenSupplier E → BuilderCall

module _ {E : Env} where
  unfoldable pub configure : BuilderCall E → ClientBuilder E → Exec E.World (ClientBuilder E)
  unfolding pure service_url with_tls with_mtls with_token with_token_supplier
  configure (sets_url url) b = pure (service_url url b)
  configure (uses_tls path) b = with_tls path b
  configure (uses_mtls ca cert key) b = with_mtls ca cert key b
  configure (uses_token token) b = pure (with_token token b)
  configure (uses_supplier supplier) b = pure (with_token_supplier supplier b)

  -- No call of the builder turns TLS off.
  pub configure_tls :
      (call : BuilderCall E) (b : ClientBuilder E) (w : E.World) {c : ClientBuilder E}
      → (configure call b w).0 ≡ ok c
      → b.options.use_tls ≡ true
      → c.options.use_tls ≡ true
  unfolding configure pure service_url with_token with_token_supplier
  configure_tls (sets_url url) b w h t = ap (λ x. x.options.use_tls) (sym (ok-inj h)) ∙ t
  configure_tls (uses_tls path) b w h t = (with_tls_options path b w h).0
  configure_tls (uses_mtls ca cert key) b w h t = (with_mtls_options ca cert key b w h).0
  configure_tls (uses_token token) b w h t = ap (λ x. x.options.use_tls) (sym (ok-inj h))
  configure_tls (uses_supplier supplier) b w h t = ap (λ x. x.options.use_tls) (sym (ok-inj h))

  pub configure-IsGuarded :
      (call : BuilderCall E) (b : ClientBuilder E) (w : E.World) {c : ClientBuilder E}
      → (configure call b w).0 ≡ ok c
      → IsGuarded b.options
      → IsGuarded c.options
  unfolding configure pure service_url with_token with_token_supplier
  configure-IsGuarded (sets_url url) b w h g = subst (λ x. IsGuarded x.options) (ok-inj h) g
  configure-IsGuarded (uses_tls path) b w h g = secured b.options _ g (with_tls_options path b w h)
  configure-IsGuarded (uses_mtls ca cert key) b w h g =
      secured b.options _ g (with_mtls_options ca cert key b w h)
  configure-IsGuarded (uses_token token) b w h g =
      subst (λ x. IsGuarded x.options) (ok-inj h) (secured b.options _ g (refl, refl))
  configure-IsGuarded (uses_supplier supplier) b w h g =
      subst (λ x. IsGuarded x.options) (ok-inj h) (secured b.options _ g (refl, refl))

  -- A client with such settings sends no metadata at all while it does not use TLS: no call carries a
  -- token, and none is asked for.
  pub guarded_sends_no_token :
      (c : Client E) (addr : String)
      → IsGuarded c.manager.options
      → c.manager.options.use_tls ≡ false
      → attach_token_if_needed addr c ≡ (ok none, c)
  unfolding auth_metadata
  guarded_sends_no_token c addr k off =
      attach_token_static addr c (k.supplier off) ∙ rw (k.token off, k.internal) refl
