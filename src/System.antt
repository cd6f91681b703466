-- ===== src/System.antt =====
-- The processes that share the database and the queue: the API server, a worker and the seed
-- program. A request, a turn of a goroutine of the worker and a run of the seed program are one
-- step each, in any order.
pub mod Owners
pub mod Keeping
pub mod Launches
pub mod Requests
pub mod Seeding
pub mod Reached
pub mod Messages
pub mod Sending
pub mod Deliveries
pub mod Known
pub mod Distinct
pub mod Identifiers
pub mod Sends
pub mod Custody
pub mod DeadLetters
pub mod Again
pub mod Serving
pub mod Completion
pub mod Outcome
pub mod Finished
use otel_forge.Prelude.{ℕ, String}
use otel_forge.Models.{Role}
use otel_forge.Action.{Env}
use otel_forge.Pool.{Pool, Turn}
use otel_forge.Seed.{seed}
use otel_forge.Server.{Settings, Request, serve}

-- Each step has an environment of its own: any call of it may fail.
pub data Step (concurrency : ℕ) : Pool → Pool → Type 0 where
  request :
      (settings : Settings) (header : String) (r : Request) (env : Env) (s : Pool)
      → Step concurrency s (record s { world = (serve settings header r env s.world).1 })
  turn : {s s' : Pool} → Turn concurrency s s' → Step concurrency s s'
  seeding :
      (getenv : String → String) (email password : String) (role : Role) (env : Env) (s : Pool)
      → Step concurrency s (record s { world = (seed getenv email password role env s.world).1 })

-- What the processes can make of `start`.
pub data Reach (concurrency : ℕ) (start : Pool) : Pool → Type 0 where
  at_start : Reach concurrency start start
  then_step :
      {s s' : Pool} → Reach concurrency start s → Step concurrency s s' → Reach concurrency start s'
