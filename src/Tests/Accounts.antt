-- ===== src/Tests/Accounts.antt =====
-- The theorems on the accounts, the configuration and the routes at concrete inputs.
use otel_forge.Prelude.{
  ℕ, ◌+◌, ◌≤◌, ◌<◌, ◌^◌, ◌≡◌, ◌≢◌, refl, sym, String, Bool, true, false, Option, none, some, [],
  ◌∷◌, str_eq, eq_iff, if◌then◌else◌, ◌==◌, arith,
}
use otel_forge.Prelude.Int.{pos}
use otel_forge.Prelude.Text.{◌⧺◌, itoa}
use otel_forge.Prelude.Atoi.{atoi, atoi_codes, parse_digits}
use otel_forge.Models.{Bytes, Role, User}
use otel_forge.Action.{Env, ok, pure, ◌>>=◌}
use otel_forge.Action.Rules.{Does}
use otel_forge.Config.{Config, load, env_or}
use otel_forge.Config.Bounds.{load_bounds}
use otel_forge.Crypto.Password.{hash_password, check_password}
use otel_forge.Store.Users.{create_user, get_user_by_email}
use otel_forge.Auth.{issue_token, require_auth}
use otel_forge.Auth.Tokens.{LoggedIn, login_authenticates}
use otel_forge.Auth.Sessions.{SignsAndReads, login_opens}
use otel_forge.Handlers.Replies.{json}
use otel_forge.Handlers.Login.{LoginRequest, login_response, checked, known, login}
use otel_forge.Database.{wrap, connect, run_migrations, migrate}
use otel_forge.Seed.{seed}
use otel_forge.Seed.Accounts.{HashesAndSigns, login-seed}
use otel_forge.Service.Checks.{OnlyReads}
use otel_forge.Server.{
  Settings, serve, handle_user, handle_admin, protected, admin, instances_get, admin_instances_get,
}
use otel_forge.Server.Guards.{Passed, AdminPassed, serve_guards}
use otel_forge.Server.Reads.{serve_queries}
use otel_forge.Server as Server
use otel_forge.Workers as Workers
use otel_forge.Queue.Setup as Setup
use otel_forge.Tests.Data.{calm, key, world, alice, alice_claims}

abbrev variables : String → String
variables name = if str_eq name "WORKER_CONCURRENCY" then "8" else "set"

abbrev loaded : Config
loaded = record {
  database_url = "set";
  rabbitmq_url = "set";
  jwt_secret = "set";
  encryption_key = "set";
  api_addr = "set";
  cors_origin = "set";
  worker_concurrency = pos 8;
}

loaded_now : load variables ≡ ok loaded
unfolding load env_or atoi atoi_codes parse_digits
loaded_now = refl

load_bounds_example :
    ((n : ℕ) × (loaded.worker_concurrency ≡ pos n) × (1 ≤ n) × (n < 2 ^ 63))
    × (loaded.database_url ≡ variables "DATABASE_URL")
    × (loaded.database_url ≢ "")
    × (loaded.encryption_key ≡ variables "ENCRYPTION_KEY")
    × (loaded.encryption_key ≢ "")
load_bounds_example = load_bounds variables loaded loaded_now

eight : variables "WORKER_CONCURRENCY" ≡ itoa 8
unfolding itoa otel_forge.Prelude.Text.decimal_fuel
eight = refl

-- It signs for the first user alone.
abbrev picky : Env
picky = record calm { sign_token = λ secret c. if c.subject == 1 then some "token" else none }

picky-SignsAndReads : SignsAndReads picky
picky-SignsAndReads = record {
  reads = λ secret keys c token time signed given in_time. (alice_claims, refl, ground arith);
}

abbrev alice_login : LoginRequest
alice_login = record { email = "alice"; password = "" }

logged_in :
    (login "secret" (some alice_login) picky world).0 ≡ ok (json 200 (login_response alice "token"))
unfolding login known checked get_user_by_email check_password issue_token ◌>>=◌
logged_in = refl

abbrev ok_code : ℕ
ok_code = 200

login_authenticates_example :
    (ok_code ≡ 200) × LoggedIn "secret" alice_login (login_response alice "token") picky world
login_authenticates_example =
    login_authenticates "secret" alice_login picky world 200 (login_response alice "token")
      logged_in

login_opens_example :
    require_auth "secret" (λ u. pure (json 200 u.id)) ("Bearer " ⧺ "token") picky world
    ≡ pure (json 200 1) picky (record world { calls = 2 })
login_opens_example =
    login_opens "secret" alice_login picky world world 200 (login_response alice "token")
      (λ u. pure (json 200 u.id)) alice picky-SignsAndReads logged_in refl refl (omega arith)

calm-HashesAndSigns : HashesAndSigns calm
calm-HashesAndSigns = record {
  matches = λ n plain hash h. (let same : plain ≡ hash = cc in (eq_iff hash plain).1 (sym same));
  signs = λ secret c. ("token", refl);
}

abbrev bob : User
bob = record { id = 6; email = "bob"; password_hash = "pw"; role = Role.admin; created_at = 6 }

seeded : (seed variables "bob" "pw" Role.admin calm world).0 ≡ ok bob
unfolding seed load env_or connect migrate run_migrations wrap hash_password create_user ◌>>=◌
seeded = refl

login-seed_example :
    (token : String) × ((login "secret"
        (some (record { email = "bob"; password = "pw" }))
        calm
        (seed variables "bob" "pw" Role.admin calm world).1).0
      ≡ ok (json 200 (login_response bob token)))
login-seed_example =
    login-seed variables "bob" "pw" "secret" Role.admin bob calm world
      (seed variables "bob" "pw" Role.admin calm world).1 calm-HashesAndSigns seeded refl refl

abbrev settings : Settings
settings = record { jwt_secret = "secret"; encryption_key = key; parse_time = λ s. none }

serve_guards_example :
    Passed "secret"
      (handle_user settings instances_get)
      "Bearer token"
      calm
      world
      (serve settings "Bearer token" (protected instances_get) calm world)
    × AdminPassed "secret"
        (handle_admin admin_instances_get)
        "Bearer token"
        calm
        world
        (serve settings "Bearer token" (admin admin_instances_get) calm world)
serve_guards_example =
    serve_guards settings "Bearer token" calm world instances_get admin_instances_get

serve_queries_example : Does OnlyReads (serve settings "Bearer token" (admin admin_instances_get))
serve_queries_example = serve_queries settings "Bearer token" (admin admin_instances_get) refl

abbrev set_bytes : Bytes
set_bytes = 115 ∷ 101 ∷ 116 ∷ []
