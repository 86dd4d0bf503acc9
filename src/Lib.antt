-- ===== src/Lib.antt =====
-- danube-py, the Python client of the Danube messaging system: a model of its producers and
-- consumers and of the services that they share, with the theorems that make them correct.
--
-- The program. A DanubeClient (danube/client.py) owns one ConnectionManager, which caches one gRPC
-- channel for each pair of a broker's address and the address to connect to; an AuthService, which
-- makes the metadata of every call; a LookupService, which finds the broker of a topic; and a
-- HealthCheckService, whose tasks ask the broker whether a producer should close. A Producer has one
-- TopicProducer, or one for each partition with a MessageRouter to choose among them; it retries a
-- message that failed and recreates topic producers. A TopicProducer registers with the broker,
-- resolves the version of its schema by the SchemaRegistryClient, and sends. A Consumer has one
-- TopicConsumer for each partition, and for each a task that reads a stream of messages from the
-- broker into a queue; it opens a stream again when one breaks, and subscribes again when the broker
-- closes the topic or the stream cannot be opened.
--
-- The model. A call is a function from a state to a result and the state after it (Exec.antt): it
-- returns, raises, or is still pending. A raise keeps what was written before it. Three states nest:
-- `Client` (Client.antt) for everything that is shared, `Session` and `Subscriber` for a topic
-- producer or consumer with the client, and `Work` and `Group` for a producer or consumer with the
-- client. What is outside the repository is a parameter, the record
-- `Env` (Env.antt): gRPC's channels and calls, the broker behind them, the clock, the random numbers
-- and the time that passes. Nothing is assumed about it but what a theorem names as a hypothesis.
--
-- The files.
--   Prelude: shared names, tests, lists, integers, decimals. Exec: calls and the rules for them;
--     `Exec.Steps` is about a relation that a call keeps between its states, `Exec.Returns` about
--     the states from which a call returns, and `Exec.Ensures` about the states with which it does.
--   Errors: danube/errors.py and the exceptions met. Env.Api, Env.Registry: the messages of
--     danube/proto/DanubeApi.proto and danube/proto/SchemaRegistry.proto.
--   Retry: danube/retry_manager.py. Router: danube/message_router.py. Client: danube/client.py's
--     DanubeClient with the events and tasks of its event loop. Connection:
--     danube/connection_manager.py. Auth: danube/auth_service.py. Lookup: danube/lookup_service.py.
--     Health: danube/health_check.py; a wake-up of a task's loop is the step `health_round`.
--     `Health.Calm` has the calls that set no event and change no task.
--   ClientBuilder: the builder of danube/client.py. Schema: danube/schema.py. Registry:
--     danube/schema_registry_client.py, with `Registry.Admin` for the calls that a producer does not
--     make and `Registry.Registration` for its builder.
--   TopicProducer: danube/topic_producer.py and danube/dispatch_strategy.py; `TopicProducer.Create` is
--     create, _try_create and stop, `TopicProducer.Schema` is _resolve_schema_metadata, and
--     `TopicProducer.Send` is send. `TopicProducer.Create.Ending` follows create to the attempt that
--     succeeds, for `Adopted` (the schema), `Watched` (the health-check task) and `Numbers` (the request
--     numbers) beside it. Producer: danube/producer.py; `Producer.Create` is create and
--     close, `Producer.Send` is send, send_with_key and the recreations, `Producer.Builder` is the
--     builder.
--   TopicConsumer: danube/topic_consumer.py. Consumer: danube/consumer.py; `Consumer.Loop` is
--     _partition_receive_loop, a step from one await to the next, with `Consumer.Loop.Arriving`
--     and `Consumer.Loop.Delivery` on the way of the messages, `Consumer.Methods` and
--     `Consumer.Tasks` are the methods and the tasks, `Consumer.Builder` is the builder.
--   Retry.Attempts is the loop of attempts that TopicProducer.create and TopicConsumer.subscribe
--     share, as an interface that both fill. Schema.Utf8 is the strict decoder of
--     bytes.decode("utf-8"). Connection.Refinement has the manager of connections as a partial map.
--     The modules called Accepted are about a broker that accepts what it is asked, and
--     Producer.Send.Refused, .Forever and .Endless about one that refuses messages;
--     Producer.Send.Recovers is about a topic producer that is not connected.
--   Program: the whole program on one client. Its state is the client with any number of producers and
--     consumers, and its steps are their calls, the steps of their tasks, further calls of the builder
--     of the client, whose options are those of the client, and what happens outside, in any order;
--     `Reach` are its runs. Program.Growth, Program.Order, Program.Settings and Program.Safety are
--     on what holds along every run.
--   Growth: what any of these calls leaves of the shared client, of a topic producer, a
--     topic consumer, a producer and a receive loop. Examples: a small world, test runs, and the
--     results at concrete inputs.
--
-- Bounds. The loops of TopicProducer.create and TopicConsumer.subscribe get one round for each
-- attempt that their settings allow, which is proved to be enough. The loop of Producer.send has no
-- bound in the source; it takes the number of its rounds as an argument, and is pending when they
-- are used up. Numbers are natural numbers or integers as in Python, which has no overflow; the hash
-- keeps its mask of 64 bits.
--
-- Not modelled. The coroutines of asyncio.gather run one after the other, and a call runs to its end
-- before another begins: interleavings of several calls at their awaits are left out, except that
-- health-check tasks and receive loops take their steps between any two calls. A consumer has
-- a copy of the list of key filters of its builder, which it shares in the source. Log lines are left
-- out, and the code that protoc generates is a parameter.
pub mod Prelude
pub mod Errors
pub mod Exec
pub mod Env
pub mod Retry
pub mod Router
pub mod Client
pub mod Connection
pub mod Auth
pub mod Lookup
pub mod Health
pub mod Schema
pub mod Registry
pub mod TopicProducer
pub mod Producer
pub mod TopicConsumer
pub mod Consumer
pub mod ClientBuilder
pub mod Growth
pub mod Program
pub mod Examples
