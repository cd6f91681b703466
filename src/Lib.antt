-- ===== src/Lib.antt =====
-- OtelForge: the launch of tasks on SSH nodes, from the request to the result of each job.
--
-- A request becomes an event with a job for each of its nodes. The service checks it, stores the
-- event and the jobs in one transaction and publishes a message for each job; the worker takes the
-- messages from the queue, runs the task's script over SSH, stores the result of the job, and rolls
-- the event up from its jobs. The API server lets a user in by the token of a login, and registers
-- the nodes with their secrets encrypted; the seed program makes the users.
--
-- Every call that the program makes of the world outside is a step of an `Action` (Action/Defs), a
-- function of an environment and a world. The world holds the tables, the two queues of the
-- broker, the commands sent over SSH and the number of calls so far. The environment says for each
-- number whether the call fails, and gives the clock, the new identifiers, the random bytes and
-- the answers of the nodes; AES-GCM, SHA-256, base64, the YAML decoder, the parser of private keys,
-- ILIKE, the embedded files, the token library, bcrypt and the CSV reader are functions of it. A Go
-- function that returns an error is an action whose result is `ok` or `err`; an ignored error is
-- `ignore`, and an inspected one `try`.
-- Action/Rules has the rules for what actions do to the world and when they return.
--
-- Which file models what:
--   Models         internal/models/models.go
--   Crypto         internal/crypto/secretbox.go; Crypto/Hex is encoding/hex
--   Store          internal/db/store.go: Users, Instances, Events (with Events/Query for the query
--                  of ListEvents), Jobs and Rollup. The tables are lists of rows, a statement is a
--                  function on them, and keys and references are checked where a row is inserted.
--   Tasks          internal/tasks/scripts.go
--   Ssh            internal/ssh: HostKey is hostkey.go and Client is client.go
--   Queue          internal/queue: rabbitmq.go, and RetryCount is retry.go
--   Service        internal/events/service.go and internal/yamlutil/validate.go
--   Runner         worker/internal/runner/runner.go; Runner/Worker is the consumer that
--                  worker/cmd/worker/main.go starts
--   Pool           the goroutines of worker/cmd/worker/main.go, each in the select of Consume, with
--                  an unsettled delivery, with one whose channel has closed, or returned; a turn of
--                  the loop, a closed channel and the signal are steps
--   Handlers       api/internal/handlers: Replies is response.go, Events is events.go, Instances is
--                  instances.go and Login is auth.go
--   Config         internal/config/config.go, on a function that gives the environment's variables
--   Auth           internal/auth/jwt.go and middleware.go; Crypto/Password is
--                  internal/crypto/password.go
--   Database       internal/db/migrate.go
--   Seed           cmd/seed/main.go
--   Queue/Setup    Connect and Declare of rabbitmq.go
--   Server         api/cmd/server/main.go: its start, and the routes as the cases of a request
--   System         the API server, a worker and the seed program on the same tables and queue: a
--                  request, a turn of a goroutine and a seeding are the steps, each with an
--                  environment of its own, and Reach has the states that they lead to
--   Workers        worker/cmd/worker/main.go: its start, and the statements of several workers on
--                  the jobs of one event as steps in any order, with what each has read of the
--                  event so far
-- The functions have the names of the source in snake case. The modules below these prove, Prelude
-- has what they share, and Tests has runs on concrete data.
--
-- The loop of Consume is cut after a number of deliveries. Three for each message on the queue are
-- enough to empty it, since a count of retries never passes two and the third failure rejects the
-- message. All other loops run over a list. ℕ stands for the identifiers, which are UUIDs, and for
-- the times, which count nanoseconds where the lifetime of a token is concerned; `int` and the retry
-- count keep their ranges, and the latter its conversion to 32 bits.
--
-- A publication that returns nil is taken as enqueued, since the program asks the broker for no
-- confirmation, and a commit that reports an error as not done. The refusal of a text by a TEXT
-- column, for a NUL or for bytes that are no UTF-8, is a failure of its call. The prefix that the SSH
-- library puts before an error of the handshake is left out. A handler that hangs is a turn that is
-- not taken.
--
-- Not modelled: the web framework's parsing, its logging and CORS middleware, and the closing of
-- connections and channels, which are calls of libraries; the signals and the stop of the API
-- server. In System a request is done before the next, and a handler does what it does when its
-- turn ends; the goroutines interleave statement by statement in Workers, for those on an event.
-- The web client and the shell scripts are other languages.
pub mod Prelude
pub mod Models
pub mod Action
pub mod Crypto
pub mod Store
pub mod Tasks
pub mod Config
pub mod Ssh
pub mod Queue
pub mod Service
pub mod Runner
pub mod Handlers
pub mod Auth
pub mod Database
pub mod Seed
pub mod Server
pub mod Pool
pub mod System
pub mod Workers
mod Tests
