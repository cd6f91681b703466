-- ===== src/Seed.antt =====
-- cmd/seed/main.go: the creation of a user. An error ends the program, with its text in the log.
pub mod Accounts
use otel_forge.Prelude.{String, Bool, ◌||◌, is_blank, not}
use otel_forge.Models.{Role, User}
use otel_forge.Action.{Action, pure, lift, require, seed_usage, ◌>>=◌, ◌>>◌}
use otel_forge.Config.{load}
use otel_forge.Crypto.Password.{hash_password}
use otel_forge.Database.{connect, migrate}
use otel_forge.Store.Users.{create_user}

-- The arguments are the values of the flags.
unfoldable pub seed : (String → String) → String → String → Role → Action User
seed getenv email password role = do
  require (not (is_blank email || is_blank password)) seed_usage
  cfg ← lift (load getenv)
  connect
  migrate
  hash ← hash_password password
  create_user email hash role
