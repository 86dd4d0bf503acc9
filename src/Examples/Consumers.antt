-- ===== src/Examples/Consumers.antt =====
-- The results on consumers at concrete inputs.
use danube_py.Prelude.{◌+◌, some, pos, none, [], ◌∷◌, false, ◌≡◌, refl, arith}
use danube_py.Errors.{ok, rpc, unavailable}
use danube_py.Exec.{◌>>◌}
use danube_py.Env.Api.{StreamMessage}
use danube_py.TopicConsumer.{Subscriber, lookup_new_broker}
use danube_py.TopicConsumer.Subscribe.{subscribe_loop}
use danube_py.TopicConsumer.Subscribe as Joining
use danube_py.TopicConsumer.Subscribe.Rounds.{subscribing, subscribe_attempts}
use danube_py.Retry.Attempts.Tried.{Tried}
use danube_py.Retry.Backoff.{new-IsValid}
use danube_py.Examples.World.{client, topic_consumer, clock_env, closing_feed, group}
use danube_py.Retry
use danube_py.Consumer.{opening, reading, Feed}
use danube_py.Consumer.Loop.{receive_step}
use danube_py.Consumer.Loop.Broken.{
  Breaks, metadata_of, reconnects, numbered, rounds, broken_stream_reopens,
}
use danube_py.Consumer.Loop.Shutdown.{IsDone, receive_step-IsDone}
use danube_py.Consumer.Tasks.{close, wake}
use danube_py.Consumer.Tasks.Closed.{close_at_rest}

receive_step-IsDone_example :
    IsDone closing_feed
      (receive_step (Retry.new (pos 2) (pos 0) (pos 0)) 1 (reading 0) closing_feed)
receive_step-IsDone_example =
    receive_step-IsDone (Retry.new (pos 2) (pos 0) (pos 0)) 1 (reading 0) closing_feed refl tt

close_at_rest_example : ((close group).0 ≡ ok tt) × (wake 0 (close group).1 ≡ (close group).1)
close_at_rest_example = close_at_rest group 0

abbrev pub received : StreamMessage
received = record {
  request_id = 5;
  msg_id = record {
    producer_id = 7;
    topic_name = "/default/t";
    broker_addr = "http://b1:6650";
    topic_offset = 2;
  };
  payload = [];
  publish_time = 0;
  producer_name = "p";
  subscription_name = "s";
  attributes = [];
  schema_id = none;
  schema_version = none;
  routing_key = none;
}

abbrev open_feed : Feed clock_env
open_feed = record closing_feed {
  this = record (closing_feed.this) { stub = some ("b1:6650", false) };
  client = record (closing_feed.client) { events = false ∷ false ∷ [] };
}

clock-Breaks : Breaks clock_env
clock-Breaks = record { breaks = λ stream w. (rpc unavailable "down", refl) }

-- After three rounds.
broken_stream_reopens_example :
    rounds (Retry.new (pos 2) (pos 0) (pos 0)) 1 3 (opening 0, open_feed) ≡ (
      opening 0,
      numbered open_feed (open_feed.this.request_id + 3) (
          reconnects clock_env 3
            ("b1:6650", false)
            (metadata_of open_feed)
            open_feed.this.consumer_id
            open_feed.this.request_id
            open_feed.client.world),
    )
broken_stream_reopens_example =
    broken_stream_reopens 3 (Retry.new (pos 2) (pos 0) (pos 0)) 1 ("b1:6650", false) open_feed
      clock-Breaks refl refl refl refl

abbrev joining : Subscriber clock_env
joining = record { this = topic_consumer; client = client }

subscribe_attempts_example :
    Tried subscribing 2 0 joining (Joining.subscribe joining)
    × (Joining.subscribe joining ≡ (lookup_new_broker >> subscribe_loop 9 0) joining)
unfolding Retry.new
subscribe_attempts_example =
    subscribe_attempts 9 joining (new-IsValid (pos 2) (pos 0) (pos 0)) (omega arith)
