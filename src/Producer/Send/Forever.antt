-- ===== src/Producer/Send/Forever.antt =====
-- The loop of attempts where every attempt fails and every recreation succeeds.
use danube_py.Prelude.{
  ℕ, zero, suc, ◌+◌, String, pos, Bool-cases, false, inl, inr, Option, some, List, get_elem?,
  get_elem?-set_self, lt_of_get_elem?, ltb, ◌≡◌, refl, sym, ap, ◌∙◌, subst,
}
use danube_py.Errors.{Error, err, pending, is_unrecoverable}
use danube_py.Exec.{Exec, modify, zoom, diverge, ◌>>=◌, ◌>>◌}
use danube_py.Exec.Inversion.{catch_step, bind_step}
use danube_py.Exec.Returns.{Ends, Returns}
use danube_py.Env.{Env}
use danube_py.Env.Api.{Bytes}
use danube_py.Client.{outside}
use danube_py.Retry.{RetryManager, is_retryable}
use danube_py.Retry.Backoff.{IsValid, calculate_backoff_ok}
use danube_py.Growth.Session.Calls.{send-Evolves}
use danube_py.TopicProducer.{TopicProducer, Session}
use danube_py.TopicProducer.Create.{create}
use danube_py.TopicProducer.Accepted.{Accepts, IsPlain, IsPlain-Evolves}
use danube_py.TopicProducer.Send
use danube_py.TopicProducer.Send.{message}
use danube_py.Producer.{Work, on_producer, on_item, on_client, on_found, put_session}
use danube_py.Producer.Send.{
  recreate_producer, relocate, lookup_and_recreate, back_off, after_failure, send_loop,
}
use danube_py.Producer.Send.Loop.{item_found}
use danube_py.Producer.Send.Refused.{
  Refuses, IsCaught, send_refused, recreated-Returns, relocate-Returns,
}

passed : (e : Error) → IsCaught e → is_unrecoverable e ≡ false → is_retryable e ≡ false → ⊥
passed e (inl fatal) a b = cc
passed e (inr again) a b = cc

module _ {E : Env} where
  -- The topic producer at place `i`.
  pub record HasPlain (i : ℕ) (s : Work E) : Type 0 where
    pub tp : TopicProducer E
    pub found : get_elem? s.this.producers i ≡ some tp
    pub plain : IsPlain (record { this = tp; client = s.client })

  pub on_producer_at :
      {A : Type 0} (i : ℕ) (m : Exec (Session E) A) (s : Work E) (h : HasPlain i s)
      → let x = m (record { this = h.tp; client = s.client }) in
        on_producer (pos i) m s ≡ (x.0, put_session i x.1 s)
  unfolding on_producer on_item
  on_producer_at i m s h =
      ap (λ o. on_found o m s)
        (item_found s.this i h.tp (lt_of_get_elem? s.this.producers i h.found) h.found)

  put_session-HasPlain :
      (i : ℕ) (s : Work E) (t : Session E)
      → HasPlain i s
      → IsPlain t
      → HasPlain i (put_session i t s)
  put_session-HasPlain i s t h p = record {
    tp = t.this;
    found =
        get_elem?-set_self s.this.producers i t.this (lt_of_get_elem? s.this.producers i h.found);
    plain = p;
  }

  on_producer-Returns :
      {A : Type 0} (i : ℕ) (m : Exec (Session E) A)
      → Returns IsPlain IsPlain m
      → Returns (HasPlain i) (HasPlain i) (on_producer (pos i) m)
  on_producer-Returns i m r = record {
    at = λ s h.
        let t : Session E = record { this = h.tp; client = s.client } in
        let (a, e, p) = r.at t h.plain in
        subst (Ends (HasPlain i)) (sym (on_producer_at i m s h))
          (a, e, put_session-HasPlain i s (m t).1 h p);
  }

  recreate_producer-Returns :
      (i : ℕ) → Accepts E → Returns (HasPlain i) (HasPlain i) (recreate_producer (pos i))
  unfolding recreate_producer
  recreate_producer-Returns i h = on_producer-Returns i create (recreated-Returns h)

  lookup_and_recreate-Returns :
      (i : ℕ) (e : Error)
      → Accepts E
      → Returns (HasPlain i) (HasPlain i) (lookup_and_recreate (pos i) e)
  unfolding lookup_and_recreate
  lookup_and_recreate-Returns i e h = on_producer-Returns i (relocate e) (relocate-Returns e h)

  back_off-Returns :
      (i : ℕ) (m : RetryManager) (attempt : ℕ)
      → IsValid m
      → Returns (HasPlain i) (HasPlain i) (back_off m attempt)
  unfolding back_off on_client outside zoom modify ◌>>=◌
  back_off-Returns i m attempt v = record {
    at = λ s h.
        let (ms, k) = calculate_backoff_ok E m attempt s.client.world v in
        rw k (
          tt,
          refl,
          record {
            tp = h.tp;
            found = h.found;
            plain = record {
              schema_ref = h.plain.schema_ref;
              token_supplier = h.plain.token_supplier;
            };
          },
        );
  }

  then_pending :
      {A : Type 0} (i : ℕ) (m : Exec (Work E) A) (f : Exec (Work E) ℕ) (s : Work E)
      → Returns (HasPlain i) (HasPlain i) m
      → HasPlain i s
      → ((t : Work E) → HasPlain i t → (f t).0 ≡ pending)
      → ((m >> f) s).0 ≡ pending
  then_pending i m f s r h k =
      let (a, e, p) = r.at s h in ap (λ x. x.0) (bind_step m (λ _. f) s e) ∙ k (m s).1 p

  attempt_refused :
      (i : ℕ) (payload : Bytes) (attributes : Option (List (String × String)))
      (routing_key : Option String) (s : Work E)
      → Refuses E
      → HasPlain i s
      → let x = on_producer (pos i) (Send.send payload attributes routing_key) s in
        (e : Error) × (x.0 ≡ err e) × IsCaught e × HasPlain i x.1
  attempt_refused i payload attributes routing_key s h p =
      let t : Session E = record { this = p.tp; client = s.client } in
      let call = Send.send payload attributes routing_key in
      let (e, k, caught) = send_refused payload attributes routing_key t h p.plain in
      let at = on_producer_at i call s p in
      (
        e,
        ap (λ x. x.0) at ∙ k,
        caught,
        subst (λ x. HasPlain i x.1) (sym at)
            (put_session-HasPlain i s (call t).1 p (
              IsPlain-Evolves t (call t).1 p.plain
                ((send-Evolves payload attributes routing_key).at t))),
      )

  after_failure_pending :
      (i attempts : ℕ) (m : RetryManager) (e : Error) (restart retry : Exec (Work E) ℕ) (s : Work E)
      → Accepts E
      → IsValid m
      → IsCaught e
      → HasPlain i s
      → ((t : Work E) → HasPlain i t → (restart t).0 ≡ pending)
      → ((t : Work E) → HasPlain i t → (retry t).0 ≡ pending)
      → (after_failure m (pos i) e attempts restart retry s).0 ≡ pending
  after_failure_pending i attempts m e restart retry s h v caught p r q =
      elim (Bool-cases (is_unrecoverable e)) [
        | inl fatal ↦ rw fatal (
            then_pending i (recreate_producer (pos i)) restart s (recreate_producer-Returns i h) p
              r)
        | inr alive ↦ elim (Bool-cases (is_retryable e)) [
          | inl again ↦ elim (Bool-cases (ltb m.max_retries (attempts + 1))) [
            | inl over ↦
                rw (alive, again, over)
                  (then_pending i (lookup_and_recreate (pos i) e) restart s
                    (lookup_and_recreate-Returns i e h) p r)
            | inr under ↦
                rw (alive, again, under)
                  (then_pending i (back_off m attempts) retry s (back_off-Returns i m attempts v) p
                    q)
          ]
          | inr stops ↦ absurd (passed e caught alive stops)
        ]
      ]

  pub send_loop_pending :
      (fuel i attempts : ℕ) (m : RetryManager) (payload : Bytes)
      (attributes : Option (List (String × String))) (routing_key : Option String) (s : Work E)
      → Accepts E
      → Refuses E
      → IsValid m
      → HasPlain i s
      → (send_loop m (pos i) payload attributes routing_key fuel attempts s).0 ≡ pending
  unfolding send_loop diverge
  send_loop_pending zero i attempts m payload attributes routing_key s h r v p = refl
  send_loop_pending (suc fuel) i attempts m payload attributes routing_key s h r v p =
      let (e, k, caught, q) = attempt_refused i payload attributes routing_key s r p in
      ap (λ x. x.0)
        (catch_step (on_producer (pos i) (Send.send payload attributes routing_key)) _ s k)
      ∙ after_failure_pending i attempts m e _ _ _ h v caught q
          (λ t k. send_loop_pending fuel i 0 m payload attributes routing_key t h r v k)
          (λ t k.
            send_loop_pending fuel i (attempts + 1) m payload attributes routing_key t h r v k)
