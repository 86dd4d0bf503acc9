-- ===== src/Examples/Programs.antt =====
-- The results on whole programs at a concrete run: a program builds a client and a consumer, subscribes,
-- receives, and its receive task takes a step.
use danube_py.Prelude.{ℕ, pos, true, false, none, some, [], ◌∷◌, get_elem?, ◌⊎◌, ◌≡◌, refl}
use danube_py.Errors.{ok}
use danube_py.Exec.{pure, ◌>>◌}
use danube_py.Client.{Client}
use danube_py.ClientBuilder.{ClientBuilder, new_client, service_url, with_token, build}
use danube_py.ClientBuilder.Guarded.{start, then_service_url}
use danube_py.Connection.{get_connection, strip_scheme}
use danube_py.Connection.Prefix.{drop_prefix?}
use danube_py.Auth.{auth_metadata, attach_token_if_needed}
use danube_py.TopicConsumer.{TopicConsumer}
use danube_py.TopicConsumer.Receive.{send_ack}
use danube_py.Consumer.{Consumer, shared}
use danube_py.Consumer.Builder.{
  ConsumerBuilder, new_consumer, with_topic, with_consumer_name, with_subscription,
}
use danube_py.Consumer.Builder as ConsumerBuild
use danube_py.Consumer.Dict.{find_entry}
use danube_py.Consumer.Methods.{on_member, ack, subscribe, receive}
use danube_py.Consumer.Tasks.{wake}
use danube_py.Growth.Group.{IsBounded}
use danube_py.Program.{
  subscribes, receives, wakes, gets_latest, consume, manage, Member, Program, group_of, member_of,
  put_group, builder_of, reconfigured, begin, Reach, here, later, consuming, managing,
  building_consumer,
}
use danube_py.Program.Safety.{
  connection_stays, program_sends_no_token, program_channels, late_token_over_plain_channel,
  queues_stay-IsBounded, acks_stay_right,
}
use danube_py.Examples.World.{clock_env, clock-ChannelView}
use danube_py.Examples.Consumers.{received}

abbrev plain : ClientBuilder clock_env
plain = service_url "http://b0:6650" new_client

abbrev built : Client clock_env
built = build plain 1000

abbrev consumer_builder : ConsumerBuilder
consumer_builder =
    with_topic "/default/t" (with_consumer_name "c" (with_subscription "s" new_consumer))

abbrev fresh : Consumer clock_env
fresh = record {
  topic_name = "/default/t";
  consumer_name = "c";
  subscription = "s";
  subscription_type = shared;
  options = record { max_retries = pos 0; base_backoff_ms = pos 0; max_backoff_ms = pos 0 };
  key_filters = [];
  consumers = [];
  shutdown = 0;
  tasks = [];
}

abbrev new_member : Member clock_env
new_member = record { this = fresh; topic_consumers = []; queues = [] }

abbrev with_consumer : Program clock_env
with_consumer = record {
  client = (ConsumerBuild.build consumer_builder built).1;
  producers = [];
  consumers = new_member ∷ [];
}

abbrev subscribed_member : Member clock_env
subscribed_member = member_of (consume subscribes (group_of new_member with_consumer.client))

abbrev with_subscription_made : Program clock_env
with_subscription_made =
    put_group 0 (consume subscribes (group_of new_member with_consumer.client)) with_consumer

abbrev receiving_member : Member clock_env
receiving_member =
    member_of (consume receives (group_of subscribed_member with_subscription_made.client))

abbrev receiving : Program clock_env
receiving =
    put_group 0 (consume receives (group_of subscribed_member with_subscription_made.client))
      with_subscription_made

receiving_run : Reach (begin built) receiving
unfolding ConsumerBuild.build build service_url new_client with_topic with_consumer_name
    with_subscription new_consumer
receiving_run =
    later
      (later (later here (building_consumer consumer_builder fresh refl))
        (consuming 0 new_member subscribes refl))
      (consuming 0 subscribed_member receives refl)

abbrev woken_member : Member clock_env
woken_member = member_of (consume (wakes 0) (group_of receiving_member receiving.client))

abbrev woken : Program clock_env
woken = put_group 0 (consume (wakes 0) (group_of receiving_member receiving.client)) receiving

woken_run : Reach (begin built) woken
woken_run = later receiving_run (consuming 0 receiving_member (wakes 0) refl)

one_queue : get_elem? woken_member.queues 0 ≡ some []
unfolding wake receive subscribe ConsumerBuild.build with_topic with_consumer_name with_subscription
    build service_url new_client
one_queue = refl

queues_stay-IsBounded_example : IsBounded []
queues_stay-IsBounded_example =
    queues_stay-IsBounded built woken 0 0 woken_member [] woken_run refl one_queue

acks_stay_right_example :
    ((find_entry "/default/t" woken_member.this.consumers ≡ none)
      × (ack received (group_of woken_member woken.client)
          ≡ (ok tt, group_of woken_member woken.client)))
    ⊎ ((j : ℕ) × (tc : TopicConsumer clock_env) × (get_elem? woken_member.topic_consumers j
          ≡ some tc)
        × (tc.topic_name ≡ "/default/t")
        × (ack received (group_of woken_member woken.client)
            ≡ (on_member j tc (send_ack 5 received.msg_id woken_member.this.subscription)
                  >> pure tt)
                (group_of woken_member woken.client)))
acks_stay_right_example = acks_stay_right built woken 0 woken_member received woken_run refl

program_sends_no_token_example :
    attach_token_if_needed "http://b1:6650" woken.client ≡ (ok none, woken.client)
unfolding service_url new_client wake receive subscribe ConsumerBuild.build with_topic
    with_consumer_name with_subscription build
program_sends_no_token_example =
    program_sends_no_token plain 1000 woken "http://b1:6650"
      (then_service_url "http://b0:6650" new_client start) woken_run refl

-- What `get_connection` gives at the end.
abbrev connected : Client clock_env
connected = (get_connection "b" "https://b:1" woken.client).1

connected_run :
    get_connection "b" "https://b:1" woken.client
    ≡ (ok (record { channel = ("b:1", false) }), connected)
unfolding wake receive subscribe ConsumerBuild.build build service_url new_client get_connection
    strip_scheme drop_prefix? with_topic with_consumer_name with_subscription
connected_run = refl

program_channels_example :
    let now = woken.client.manager.options.use_tls in
    ("b:1" ≡ strip_scheme "https://b:1")
    × (false ≡ true → now ≡ true)
    × (now ≡ plain.options.use_tls → false ≡ plain.options.use_tls)
program_channels_example =
    program_channels clock-ChannelView plain 1000 woken "b" "https://b:1" woken_run connected_run

connection_stays_example :
    get_connection "b" "https://b:1" (manage (gets_latest "s") connected)
    ≡ (ok (record { channel = ("b:1", false) }), manage (gets_latest "s") connected)
connection_stays_example =
    connection_stays "b" "https://b:1" woken
      (record woken { client = manage (gets_latest "s") connected }) connected_run
      (later here (managing (gets_latest "s")))

-- The client after `b.with_token` on its builder.
abbrev with_late_token : Client clock_env
with_late_token =
    reconfigured (with_token "t" (builder_of "http://b0:6650" connected)) connected.world connected

late_token_over_plain_channel_example :
    (attach_token_if_needed "https://b:1" with_late_token
      ≡ (ok (auth_metadata "t" ""), with_late_token))
    × (get_connection "b" "https://b:1" with_late_token
        ≡ (ok (record { channel = ("b:1", false) }), with_late_token))
    × (false ≡ false)
unfolding service_url new_client wake receive subscribe ConsumerBuild.build with_topic
    with_consumer_name with_subscription build
late_token_over_plain_channel_example =
    late_token_over_plain_channel clock-ChannelView plain 1000 woken "b" "https://b:1"
      "http://b0:6650" "t" (then_service_url "http://b0:6650" new_client start) refl woken_run refl
      connected_run
