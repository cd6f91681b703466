-- ===== src/Queue/Setup.antt =====
-- internal/queue/rabbitmq.go, `Connect` and `Declare`: the exchange, the queues and the bindings.
use otel_forge.Prelude.{String, Option, none, some, List, [], ◌∷◌}
use otel_forge.Action.{Action, pure, call, ◌>>◌}
use otel_forge.Database.{wrap}

abbrev pub exchange_name : String
exchange_name = "otel.deploy"

abbrev pub queue_name : String
queue_name = "deploy.jobs"

abbrev pub dlq_name : String
dlq_name = "deploy.jobs.dlq"

abbrev pub routing_key : String
routing_key = "job"

-- A direct exchange; a queue, with the exchange and the key of its dead letters; a binding of a
-- queue to an exchange under a key. All are durable.
pub data Declaration : Type 0 where
  direct_exchange : String → Declaration
  durable_queue : String → Option (String × String) → Declaration
  binding : String → String → String → Declaration

abbrev pub topology : List Declaration
topology =
    direct_exchange exchange_name
    ∷ durable_queue dlq_name none
    ∷ durable_queue queue_name (some (exchange_name, "dlq"))
    ∷ binding queue_name routing_key exchange_name
    ∷ binding dlq_name "dlq" exchange_name
    ∷ []

-- Each declaration is a call; the first that fails ends it.
unfoldable pub declare_all : List Declaration → Action (Unit {0})
declare_all [] = pure tt
declare_all (d ∷ rest) = do call; declare_all rest

unfoldable pub declare : Action (Unit {0})
declare = do call; declare_all topology

unfoldable pub connect : Action (Unit {0})
connect = do wrap "dial rabbitmq: " call; pure tt
