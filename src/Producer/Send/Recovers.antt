-- ===== src/Producer/Send/Recovers.antt =====
-- A send on a topic producer that is not connected, such as one whose `create` has failed.
use danube_py.Exec.{Exec}
use danube_py.Env.{Env}
use danube_py.TopicProducer.Send
