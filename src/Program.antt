-- ===== src/Program.antt =====
-- A whole program on one client: its producers and consumers, the tasks that the event loop wakes up in
-- any order between their calls, and what a user does.
pub mod Growth
pub mod Order
pub mod Settings
pub mod Safety
use danube_py.Prelude.{
  ℕ, zero, suc, String, Bool, Option, some, List, [], ◌∷◌, ◌++◌, get_elem?, set, ◌≡◌,
}
use danube_py.Errors.{ok}
use danube_py.Exec.{Exec}
use danube_py.Env.{Env}
use danube_py.Env.Api.{Bytes, StreamMessage}
use danube_py.Client.{Client}
use danube_py.ClientBuilder.{ClientBuilder}
use danube_py.ClientBuilder.Guarded.{BuilderCall, configure}
use danube_py.Health.{health_round}
use danube_py.Schema.{SchemaType, CompatibilityMode}
use danube_py.Registry.{get_schema_version, get_latest_schema}
use danube_py.Registry.Admin.{
  list_versions, check_compatibility, set_compatibility_mode, delete_schema_version,
  configure_topic_schema, update_topic_validation_policy, get_topic_schema_config,
}
use danube_py.Registry.Registration.{SchemaRegistrationBuilder, execute}
use danube_py.TopicConsumer.{TopicConsumer}
use danube_py.Producer.{Producer, Work}
use danube_py.Producer.Create.{create_producer}
use danube_py.Producer.Create as ProducerCreate
use danube_py.Producer.Send as ProducerSend
use danube_py.Producer.Builder.{ProducerBuilder}
use danube_py.Producer.Builder as ProducerBuild
use danube_py.Consumer.{Consumer, Group}
use danube_py.Consumer.Methods.{subscribe, receive, ack, nack}
use danube_py.Consumer.Tasks.{wake}
use danube_py.Consumer.Tasks as ConsumerTasks
use danube_py.Consumer.Builder.{ConsumerBuilder}
use danube_py.Consumer.Builder as ConsumerBuild

-- The methods of a producer. The number of rounds bounds the loop of a send.
pub data ProducerCall : Type 0 where
  creates : ProducerCall
  sends : (rounds : ℕ) → Bytes → Option (List (String × String)) → ProducerCall
  sends_with_key : (rounds : ℕ) → Bytes → Option (List (String × String)) → String → ProducerCall
  closes : ProducerCall

-- The methods of a consumer, a step of one of its tasks, and `get` of a queue by the user.
pub data ConsumerCall : Type 0 where
  subscribes receives : ConsumerCall
  acks : StreamMessage → ConsumerCall
  nacks : StreamMessage → Option ℕ → Option String → ConsumerCall
  leaves : ConsumerCall
  wakes : (task : ℕ) → ConsumerCall
  takes : (queue : ℕ) → ConsumerCall

-- The methods of the schema registry client, and a round of a health-check task.
pub data ClientCall : Type 0 where
  checks_health : (task : ℕ) → ClientCall
  registers : SchemaRegistrationBuilder → ClientCall
  gets_version : ℕ → Option ℕ → ClientCall
  gets_latest : String → ClientCall
  lists_versions : String → ClientCall
  checks_compatibility : String → Bytes → SchemaType → Option CompatibilityMode → ClientCall
  sets_compatibility : String → CompatibilityMode → ClientCall
  deletes_version : String → ℕ → ClientCall
  configures_topic : String → String → String → Bool → ClientCall
  updates_policy : String → String → Bool → ClientCall
  gets_config : String → ClientCall

abbrev pub tail_of : List StreamMessage → List StreamMessage
tail_of [] = []
tail_of (m ∷ ms) = ms

abbrev pub take_head : ℕ → List (List StreamMessage) → List (List StreamMessage)
take_head i [] = []
take_head zero (q ∷ qs) = tail_of q ∷ qs
take_head (suc i) (q ∷ qs) = q ∷ take_head i qs

module _ {E : Env} where
  -- A call changes the state whether it returns or raises.
  abbrev pub produce : ProducerCall → Work E → Work E
  produce creates s = (create_producer s).1
  produce (sends rounds payload attributes) s = (ProducerSend.send rounds payload attributes s).1
  produce (sends_with_key rounds payload attributes key) s =
      (ProducerSend.send_with_key rounds payload attributes key s).1
  produce closes s = (ProducerCreate.close s).1

  abbrev pub consume : ConsumerCall → Group E → Group E
  consume subscribes g = (subscribe g).1
  consume receives g = (receive g).1
  consume (acks m) g = (ack m g).1
  consume (nacks m delay reason) g = (nack m delay reason g).1
  consume leaves g = (ConsumerTasks.close g).1
  consume (wakes i) g = wake i g
  consume (takes q) g = record g { queues = take_head q g.queues }

  abbrev pub manage : ClientCall → Client E → Client E
  manage (checks_health i) c = (health_round i c).1
  manage (registers b) c = (execute b c).1
  manage (gets_version id version) c = (get_schema_version id version c).1
  manage (gets_latest subject) c = (get_latest_schema subject c).1
  manage (lists_versions subject) c = (list_versions subject c).1
  manage (checks_compatibility subject bytes t mode) c =
      (check_compatibility subject bytes t mode c).1
  manage (sets_compatibility subject mode) c = (set_compatibility_mode subject mode c).1
  manage (deletes_version subject version) c = (delete_schema_version subject version c).1
  manage (configures_topic topic subject policy on) c =
      (configure_topic_schema topic subject policy on c).1
  manage (updates_policy topic policy on) c = (update_topic_validation_policy topic policy on c).1
  manage (gets_config topic) c = (get_topic_schema_config topic c).1

module _ (E : Env) where
  -- A consumer with its topic consumers and queues, less the client.
  pub record Member : Type 0 where
    pub this : Consumer E
    pub topic_consumers : List (TopicConsumer E)
    pub queues : List (List StreamMessage)

  pub record Program : Type 0 where
    pub client : Client E
    pub producers : List (Producer E)
    pub consumers : List Member

module _ {E : Env} where
  abbrev pub group_of : Member E → Client E → Group E
  group_of m c = record {
    this = m.this;
    client = c;
    topic_consumers = m.topic_consumers;
    queues = m.queues;
  }

  abbrev pub member_of : Group E → Member E
  member_of g = record { this = g.this; topic_consumers = g.topic_consumers; queues = g.queues }

  abbrev pub put_work : ℕ → Work E → Program E → Program E
  put_work i w s = record s { client = w.client; producers = set s.producers i w.this }

  abbrev pub put_group : ℕ → Group E → Program E → Program E
  put_group i g s = record s { client = g.client; consumers = set s.consumers i (member_of g) }

  -- The builder that has made the client, whose options are the client's: both have one object.
  abbrev pub builder_of : String → Client E → ClientBuilder E
  builder_of uri c = record { uri = uri; options = c.manager.options }

  -- The client after a call of that builder. The client keeps its own address.
  abbrev pub reconfigured : ClientBuilder E → E.World → Client E → Client E
  reconfigured b w c = record c { manager = record (c.manager) { options = b.options }; world = w }

  -- What happens next: a call on a producer, a consumer or the client, a step of any task, a new
  -- producer or consumer, a call on the builder of the client, or something outside.
  pub data Step (s : Program E) : Program E → Type 0 where
    producing :
        (i : ℕ) (p : Producer E) (call : ProducerCall)
        → get_elem? s.producers i ≡ some p
        → Step s (put_work i (produce call (record { this = p; client = s.client })) s)
    consuming :
        (i : ℕ) (m : Member E) (call : ConsumerCall)
        → get_elem? s.consumers i ≡ some m
        → Step s (put_group i (consume call (group_of m s.client)) s)
    managing : (call : ClientCall) → Step s (record s { client = manage call s.client })
    building_producer :
        (b : ProducerBuilder) (p : Producer E)
        → ProducerBuild.build E b ≡ ok p
        → Step s (record s { producers = s.producers ++ (p ∷ []) })
    building_consumer :
        (b : ConsumerBuilder) (c : Consumer E)
        → (ConsumerBuild.build b s.client).0 ≡ ok c
        → Step s (record s {
          client = (ConsumerBuild.build b s.client).1;
          consumers = s.consumers ++ (record { this = c; topic_consumers = []; queues = [] } ∷ []);
        })
    configuring :
        (call : BuilderCall E) (uri : String) (b : ClientBuilder E)
        → (configure call (builder_of uri s.client) s.client.world).0 ≡ ok b
        → Step s (record s {
          client =
              reconfigured b (configure call (builder_of uri s.client) s.client.world).1 s.client;
        })
    outside : (w : E.World) → Step s (record s { client = record (s.client) { world = w } })

  -- A program that has just built its client.
  abbrev pub begin : Client E → Program E
  begin c = record { client = c; producers = []; consumers = [] }

  pub data Reach (s : Program E) : Program E → Type 0 where
    here : Reach s s
    later : {t u : Program E} → Reach s t → Step t u → Reach s u
