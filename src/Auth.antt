-- ===== src/Auth.antt =====
-- internal/auth: jwt.go and middleware.go. The clock counts nanoseconds.
pub mod Tokens
pub mod Sessions
use otel_forge.Prelude.{ℕ, String, ◌+◌, ◌*◌, ◌^◌, ◌==◌, Option, none, some, if◌then◌else◌}
use otel_forge.Prelude.Text.{strip_prefix}
use otel_forge.Models.{is_admin, User}
use otel_forge.Action.{
  Claims, SigningMethod, hs256, other_method, Action, Result, ok, err, pure, raise, lift, or_raise,
  try, tick, get_env, driver, invalid_token, ◌>>=◌, ◌>>◌,
}
use otel_forge.Store.Users.{get_user_by_id}
use otel_forge.Handlers.Replies.{Reply, text}

-- 24 hours
abbrev pub token_lifetime : ℕ
token_lifetime = 24 * 3600 * 10 ^ 9

-- The clock is read once for each of the two times.
unfoldable pub issue_token : String → User → Action String
issue_token secret user = do
  n ← tick
  k ← tick
  env ← get_env
  lift (
      or_raise
        (env.sign_token secret (record {
          email = user.email;
          role = user.role;
          subject = user.id;
          expires_at = env.now n + token_lifetime;
          issued_at = env.now k;
        }))
        (driver "sign"))

-- The key is handed out for HS256 alone.
abbrev pub keys_for : String → SigningMethod → Option String
keys_for secret hs256 = some secret
keys_for secret other_method = none

unfoldable pub parse_token : String → String → Action Claims
parse_token secret token = do
  n ← tick
  env ← get_env
  lift (or_raise (env.read_token (keys_for secret) (env.now n) token) invalid_token)

abbrev pub unauthorized : {A : Type 0} → Reply A
unauthorized = text 401 "unauthorized"

abbrev pub forbidden : {A : Type 0} → Reply A
forbidden = text 403 "forbidden"

module _ {A : Type 0} (secret : String) (next : User → Action (Reply A)) where
  unfoldable pub with_user : Result User → Action (Reply A)
  with_user (ok user) = next user
  with_user (err _) = pure unauthorized

  unfoldable pub with_claims : Result Claims → Action (Reply A)
  with_claims (ok claims) = do r ← try (get_user_by_id claims.subject); with_user r
  with_claims (err _) = pure unauthorized

  unfoldable pub with_bearer : Option String → Action (Reply A)
  with_bearer none = pure unauthorized
  with_bearer (some token) = do r ← try (parse_token secret token); with_claims r

  -- `header` is the Authorization header, "" if there is none.
  unfoldable pub require_auth : String → Action (Reply A)
  require_auth header = with_bearer (strip_prefix "Bearer " header)

-- `RequireAdmin`, behind `RequireAuth`: the role is the row's, not the token's.
unfoldable pub require_admin : {A : Type 0} → (User → Action (Reply A)) → User → Action (Reply A)
require_admin next user = if is_admin user.role then next user else pure forbidden
