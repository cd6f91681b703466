-- ===== src/Crypto/Password.antt =====
-- internal/crypto/password.go. The cost is a constant of the hash.
use otel_forge.Prelude.{String}
use otel_forge.Action.{Action, lift, or_raise, require, tick, get_env, driver, ◌>>=◌}

unfoldable pub hash_password : String → Action String
hash_password plain = do
  n ← tick
  env ← get_env
  lift (or_raise (env.bcrypt_hash n plain) (driver "bcrypt"))

unfoldable pub check_password : String → String → Action (Unit {0})
check_password hash plain = do
  env ← get_env
  require (env.bcrypt_matches hash plain)
      (driver "hashedPassword is not the hash of the given password")
