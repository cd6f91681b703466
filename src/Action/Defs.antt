-- ===== src/Action/Defs.antt =====
-- The world that the methods share, the environment that they run in, and the error monad.
use otel_forge.Prelude.{ℕ, ◌+◌, String, Bool, true, false, Option, none, some, List}
use otel_forge.Prelude.Int.{ℤ}
use otel_forge.Prelude.Text.{◌⧺◌, itoa}
use otel_forge.Models.{Role, Bytes, User, Instance, Event, Job, JobCheck, TaskType, task_text}

-- The tables of internal/db/migrations. A row of `event_instances` is a pair of identifiers.
pub record Db : Type 0 where
  pub users : List User
  pub instances : List Instance
  pub events : List Event
  pub jobs : List Job
  pub job_checks : List JobCheck
  pub event_instances : List (ℕ × ℕ)

-- internal/queue/message.go
pub record JobMessage : Type 0 where
  pub job_id : ℕ
  pub event_id : ℕ
  pub instance_id : ℕ
  pub task_type : TaskType

-- The dynamic type and the value of an AMQP header.
pub data HeaderValue : Type 0 where
  int32 int64 int : ℤ → HeaderValue
  other_value : HeaderValue

-- A message on a queue: the body, `none` if it is no JSON of a `JobMessage`, and the headers,
-- `none` for a nil table.
pub record Delivery : Type 0 where
  pub body : Option JobMessage
  pub headers : Option (List (String × HeaderValue))

-- `ready` is the queue `deploy.jobs` and `dead` is `deploy.jobs.dlq`, oldest message first.
-- `sent` holds the commands run over SSH, in order.
-- `calls` counts the calls of the environment, which are numbered from 0.
pub record World : Type 0 where
  pub db : Db
  pub open db use *
  pub ready : List Delivery
  pub dead : List Delivery
  pub sent : List String
  pub calls : ℕ

-- How an SSH server meets the n-th call: it cannot be reached, or it shows a host key with this
-- fingerprint and then, if the client goes on, accepts the credentials or reports an error.
pub data Dial : Type 0 where
  unreachable : String → Dial
  presents : String → Option String → Dial

-- How a remote command ends: no session, an exit with a status, or another error.
pub data SessionEnd : Type 0 where
  no_session : String → SessionEnd
  exited : String → String → ℕ → SessionEnd
  broken : String → String → String → SessionEnd

-- internal/auth/jwt.go: what a token says. The times are as the clock gives them.
pub record Claims : Type 0 where
  pub email : String
  pub role : Role
  pub subject : ℕ
  pub expires_at : ℕ
  pub issued_at : ℕ

-- The signing method that a token names.
pub data SigningMethod : Type 0 where
  hs256 other_method : SigningMethod

-- What the program uses of the world outside, by the number of the call:
-- whether a statement or a publication fails, for any reason that is not written out, the clock, gen_random_uuid(), the random bytes,
-- and the far ends of the SSH connections.
-- `ilike text pattern` is PostgreSQL's ILIKE.
-- AES-GCM under a 32-byte key, SHA-256 in hexadecimal, the YAML decoder and the parser of private
-- keys are functions; the last two return the error, if any. So are base64 and the embedded files.
-- `read_token` is `jwt.ParseWithClaims`, given the key for each method, at a time; `sign_token` signs
-- with HS256. `bcrypt_hash` draws a salt; `read_csv` is `csv.Reader.ReadAll`.
pub record Env : Type 0 where
  pub fault : ℕ → Option String
  pub now : ℕ → ℕ
  pub fresh : ℕ → ℕ
  pub random : ℕ → Bytes
  pub dial : ℕ → Dial
  pub session : ℕ → String → SessionEnd
  pub ilike : String → String → Bool
  pub nonce_size : ℕ
  pub gcm_seal : Bytes → Bytes → Bytes → Bytes
  pub gcm_open : Bytes → Bytes → Bytes → Option Bytes
  pub sha256_hex : String → String
  pub yaml_error : String → Option String
  pub key_error : Bytes → Option String
  pub base64 : String → String
  pub read_script : String → Option String
  pub sign_token : String → Claims → Option String
  pub read_token : (SigningMethod → Option String) → ℕ → String → Option Claims
  pub bcrypt_hash : ℕ → String → Option String
  pub bcrypt_matches : String → String → Bool
  pub read_csv : String → Option (List (List String))

-- The errors of the program, by the place that makes them; `driver` is an error of a library.
pub data Error : Type 0 where
  driver : String → Error
  no_rows duplicate_key foreign_key check_constraint : Error
  instance_not_found event_not_found : Error
  instance_required config_required : Error
  invalid_yaml : String → Error
  instance_not_owned : ℕ → Error
  unknown_task : TaskType → Error
  key_length key_hex key_decoded ciphertext_short auth_failed : Error
  parse_private_key : String → Error
  no_credentials no_job_credentials : Error
  not_pinned : Error
  pin_failed : String → Error
  key_mismatch : String → String → Error
  test_exit : ℕ → Error
  database_url_required encryption_key_required : Error
  row_too_short number_range invalid_token seed_usage : Error

-- `err.Error()`
abbrev pub message : Error → String
message (driver s) = s
message no_rows = "no rows in result set"
message duplicate_key = "duplicate key value violates unique constraint"
message foreign_key = "violates foreign key constraint"
message check_constraint = "violates check constraint"
message instance_not_found = "instance not found"
message event_not_found = "event not found"
message instance_required = "at least one instance required"
message config_required = "config required for task"
message (invalid_yaml s) = "invalid yaml: " ⧺ s
message (instance_not_owned i) = "instance not owned: " ⧺ itoa i
message (unknown_task t) = "unknown task type: " ⧺ task_text t
message key_length = "ENCRYPTION_KEY must be 32 bytes raw or 64 hex chars"
message key_hex = "invalid hex ENCRYPTION_KEY"
message key_decoded = "ENCRYPTION_KEY must decode to 32 bytes"
message ciphertext_short = "ciphertext too short"
message auth_failed = "cipher: message authentication failed"
message (parse_private_key s) = "parse private key: " ⧺ s
message no_credentials = "no ssh credentials configured"
message no_job_credentials = "instance has no ssh credentials"
message not_pinned = "ssh host key not pinned and no pin callback configured"
message (pin_failed s) = "pin host key: " ⧺ s
message (key_mismatch got expected) = "ssh host key mismatch: got " ⧺ got ⧺ ", expected " ⧺ expected
message (test_exit n) = "ssh test failed exit " ⧺ itoa n
message database_url_required = "DATABASE_URL required"
message seed_usage = "usage: seed --email x --password y [--role admin]"
message row_too_short = "row too short"
message number_range = "number out of range"
message invalid_token = "invalid token"
message encryption_key_required = "ENCRYPTION_KEY required"

pub data Result (A : Type 0) : Type 0 where
  ok : A → Result A
  err : Error → Result A

abbrev pub Action : Type 0 → Type 0
Action A = Env → World → Result A × World

module _ {A : Type 0} where
  unfoldable pub pure : A → Action A
  pure a env w = (ok a, w)

  unfoldable pub raise : Error → Action A
  raise e env w = (err e, w)

  unfoldable pub lift : Result A → Action A
  lift r env w = (r, w)

  abbrev pub or_raise : Option A → Error → Result A
  or_raise none e = err e
  or_raise (some a) e = ok a

-- `_ = …`: the error is dropped.
unfoldable pub ignore : {A : Type 0} → Action A → Action (Unit {0})
ignore m env w = (ok tt, (m env w).1)

-- A caller that goes on from an error: the result is a value.
unfoldable pub try : {A : Type 0} → Action A → Action (Result A)
try m env w = let (r, w') = m env w in (ok r, w')

unfoldable pub get_env : Action Env
get_env env w = (ok env, w)

unfoldable pub get_db : Action Db
get_db env w = (ok w.db, w)

unfoldable pub modify_db : (Db → Db) → Action (Unit {0})
modify_db f env w = (ok tt, record w { db = f w.db })

-- The statement or the method goes on only if the test holds.
unfoldable pub require : Bool → Error → Action (Unit {0})
require true e env w = (ok tt, w)
require false e env w = (err e, w)

-- Undoes all that the block wrote to the tables, if it fails; the calls stay made.
abbrev pub settle : {A : Type 0} → Db → Result A × World → Result A × World
settle db (ok a, w) = (ok a, w)
settle db (err e, w) = (err e, record w { db = db })

unfoldable pub rolled_back : {A : Type 0} → Action A → Action A
rolled_back m env w = settle w.db (m env w)

abbrev answer : Option String → ℕ → Result ℕ
answer none n = ok n
answer (some s) n = err (driver s)

-- One call of PostgreSQL or RabbitMQ: it has a number, and fails where the environment says so.
-- A statement that fails changes nothing.
unfoldable pub call : Action ℕ
call env w = (answer (env.fault w.calls) w.calls, record w { calls = w.calls + 1 })

-- The number of a call whose failures are the caller's to read.
unfoldable pub tick : Action ℕ
tick env w = (ok w.calls, record w { calls = w.calls + 1 })

module _ {A B : Type 0} where
  abbrev pub continue : Result A → (A → Action B) → Action B
  continue (ok a) f env w = f a env w
  continue (err e) f env w = (err e, w)

  infixl 5 ◌>>=◌ ◌>>◌
  -- `if err != nil { return err }` between two calls. Opening this opens the actions above too.
  unfoldable pub ◌>>=◌ : Action A → (A → Action B) → Action B
  unfolding pure raise lift ignore try get_env get_db modify_db require rolled_back call tick
  ◌>>=◌ m f env w = let (r, w') = m env w in continue r f env w'

  abbrev pub ◌>>◌ : Action A → Action B → Action B
  m >> k = m >>= λ _. k
