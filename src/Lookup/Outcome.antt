-- ===== src/Lookup/Outcome.antt =====
-- The ways in which `handle_lookup` ends.
use danube_py.Prelude.{String, ◌≡◌, refl}
use danube_py.Errors.{Result, ok, err, pending, lookup_error}
use danube_py.Exec.{proceed, ◌>>=◌}
use danube_py.Env.{Env}
use danube_py.Env.Api.{TopicLookupResponse, LookupType, redirect, connect, failed, unrecognized}
use danube_py.Client.{BrokerAddress, Client}
use danube_py.Lookup.{lookup_topic, address_of, handle_lookup, broker_address}

-- What a caller gets, by the type of the broker's answer.
abbrev pub answer : LookupType → TopicLookupResponse → Result BrokerAddress
answer redirect r = ok (broker_address r)
answer connect r = ok (broker_address r)
answer failed r =
    err (lookup_error "topic lookup failed: topic may not exist or cluster is unavailable")
answer (unrecognized _) r = err (lookup_error "unknown lookup type")

abbrev pub outcome : Result TopicLookupResponse → Result BrokerAddress
outcome (ok r) = answer r.response_type r
outcome (err e) = err e
outcome pending = pending

address_of_lem :
    {E : Env} (t : LookupType) (r : TopicLookupResponse) (c : Client E)
    → address_of t r c ≡ (answer t r, c)
unfolding address_of
address_of_lem redirect r c = refl
address_of_lem connect r c = refl
address_of_lem failed r c = refl
address_of_lem (unrecognized _) r c = refl

proceed-address_of :
    {E : Env} (r : Result TopicLookupResponse) (c : Client E)
    → proceed r (λ a. address_of a.response_type a) c ≡ (outcome r, c)
proceed-address_of (ok r) c = address_of_lem r.response_type r c
proceed-address_of (err e) c = refl
proceed-address_of pending c = refl

-- `handle_lookup` makes one `lookup_topic` and changes nothing else. A redirect and a connect give
-- the address in the answer; a failed lookup and an unknown type raise a `LookupError`; an error of
-- the call itself is passed on.
pub handle_lookup_lem :
    {E : Env} (addr topic : String) (c : Client E)
    → let (r, c') = lookup_topic addr topic c in handle_lookup addr topic c ≡ (outcome r, c')
unfolding ◌>>=◌ handle_lookup
handle_lookup_lem addr topic c = let (r, c') = lookup_topic addr topic c in proceed-address_of r c'
