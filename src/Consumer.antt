-- ===== src/Consumer.antt =====
-- danube/consumer.py: a consumer of all partitions of a topic.
pub mod Loop
pub mod Dict
pub mod Methods
pub mod Tasks
pub mod Builder
use danube_py.Prelude.{ℕ, String, ℤ, Option, List}
use danube_py.Env.{Env}
use danube_py.Env.Api.{StreamMessage}
use danube_py.Client.{Client, TaskStatus}
use danube_py.Retry.{RetryManager}
use danube_py.TopicConsumer.{TopicConsumer}

abbrev pub receive_channel_buffer : ℕ
receive_channel_buffer = 100

-- `GRACEFUL_CLOSE_DELAY_SECS`, in milliseconds
abbrev pub graceful_close_delay_ms : ℕ
graceful_close_delay_ms = 100

pub data SubType : Type 0 where
  exclusive shared failover key_shared : SubType

-- `int(...)` of the enum
unfoldable pub sub_type_value : SubType → ℕ
sub_type_value exclusive = 0
sub_type_value shared = 1
sub_type_value failover = 2
sub_type_value key_shared = 3

pub record ConsumerOptions : Type 0 where
  pub max_retries : ℤ
  pub base_backoff_ms : ℤ
  pub max_backoff_ms : ℤ

module _ (E : Env) where
  -- Where a receive loop stands between two of its awaits: it is about to open a stream after some
  -- failed attempts, it reads a stream, it waits for room in the queue with a message in hand, or it
  -- has returned.
  pub data Phase : Type 0 where
    opening : ℕ → Phase
    reading : E.Stream → Phase
    putting : StreamMessage → E.Stream → Phase
    ended : Phase

  -- What a receive loop works on: a topic consumer, the shared client and the queue.
  pub record Feed : Type 0 where
    pub this : TopicConsumer E
    pub client : Client E
    pub queue : List StreamMessage

  -- A task of `_partition_receive_loop`; the topic consumer and the queue are places.
  pub record ReceiveTask : Type 0 where
    pub consumer : ℕ
    pub queue : ℕ
    pub retry_manager : RetryManager
    pub phase : Phase
    pub status : TaskStatus

  -- `consumers` is the dict of topic consumers by partition, and `shutdown` the place of an event.
  pub record Consumer : Type 0 where
    pub topic_name : String
    pub consumer_name : String
    pub subscription : String
    pub subscription_type : SubType
    pub options : ConsumerOptions
    pub key_filters : List String
    pub consumers : List (String × ℕ)
    pub shutdown : ℕ
    pub tasks : List ReceiveTask

  -- The consumer with the client that it shares, the topic consumers and the queues, which its tasks
  -- and its user refer to as well.
  pub record Group : Type 0 where
    pub this : Consumer
    pub client : Client E
    pub topic_consumers : List (TopicConsumer E)
    pub queues : List (List StreamMessage)
