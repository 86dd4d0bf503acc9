-- ===== src/TopicProducer/Relocated.antt =====
-- What a lookup makes of a topic producer.
use danube_py.Prelude.{◌≡◌, refl}
use danube_py.Errors.{Result, ok, err, pending}
use danube_py.Exec.{pure, catch, handle, proceed, modify, zoom, ◌>>=◌}
use danube_py.Env.{Env}
use danube_py.Env.Api.{TopicLookupResponse, LookupType, redirect, connect, failed, unrecognized}
use danube_py.Client.{Client}
use danube_py.Lookup.{lookup_topic}
use danube_py.Lookup.Outcome.{answer, outcome, handle_lookup_lem}
use danube_py.TopicProducer.{
  TopicProducer, Session, get_this, set_this, on_client, use_address, lookup_new_broker,
}

module _ {E : Env} where
  -- By the type of the answer: where the producer goes.
  abbrev pub moved : LookupType → TopicLookupResponse → TopicProducer E → TopicProducer E
  moved redirect r p = record p {
    broker_addr = r.broker_url;
    connect_url = r.connect_url;
    proxy = r.proxy;
  }
  moved connect r p = record p {
    broker_addr = r.broker_url;
    connect_url = r.connect_url;
    proxy = r.proxy;
  }
  moved failed r p = p
  moved (unrecognized _) r p = p

  abbrev pub followed :
      Result TopicLookupResponse → Client E → TopicProducer E → Result (Unit {0}) × Session E
  followed (ok r) c p = (ok tt, record { this = moved r.response_type r p; client = c })
  followed (err e) c p = (ok tt, record { this = p; client = c })
  followed pending c p = (pending, record { this = p; client = c })

  from_answer :
      (t : LookupType) (r : TopicLookupResponse) (s : Session E)
      → (let (q, u) = proceed (answer t r) use_address s in handle q (λ e. pure tt) u)
        ≡ (ok tt, record s { this = moved t r s.this })
  unfolding use_address set_this modify pure
  from_answer redirect r s = refl
  from_answer connect r s = refl
  from_answer failed r s = refl
  from_answer (unrecognized _) r s = refl

  from_outcome :
      (r : Result TopicLookupResponse) (s : Session E)
      → (let (q, u) = proceed (outcome r) use_address s in handle q (λ e. pure tt) u)
        ≡ followed r s.client s.this
  unfolding pure
  from_outcome (ok r) s = from_answer r.response_type r s
  from_outcome (err e) s = refl
  from_outcome pending s = refl

  -- `lookup_new_broker` asks where the producer is connected for its topic, once, and never raises. If
  -- the answer is a redirect or a connect, the producer takes over the broker's url, the url to
  -- connect to and whether to go through the proxy, each from the field of the answer with its name;
  -- with any other answer and any error it stays where it is. Nothing else of it changes, and of the
  -- client what the one lookup changes.
  pub lookup_new_broker_lem :
      (s : Session E)
      → let (r, c) = lookup_topic s.this.connect_url s.this.topic s.client in
        lookup_new_broker s ≡ followed r c s.this
  unfolding lookup_new_broker get_this set_this on_client use_address zoom modify catch pure ◌>>=◌
  lookup_new_broker_lem s =
      let (r, c) = lookup_topic s.this.connect_url s.this.topic s.client in
      rw (handle_lookup_lem s.this.connect_url s.this.topic s.client)
        (from_outcome r (record s { client = c }))
