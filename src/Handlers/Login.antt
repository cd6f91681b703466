-- ===== src/Handlers/Login.antt =====
-- api/internal/handlers/auth.go. `secret` is that of the token service.
use otel_forge.Prelude.{ℕ, String, Option, none, some}
use otel_forge.Models.{Role, User}
use otel_forge.Action.{Action, Result, ok, err, pure, try, ◌>>=◌}
use otel_forge.Crypto.Password.{check_password}
use otel_forge.Store.Users.{get_user_by_email}
use otel_forge.Auth.{issue_token}
use otel_forge.Handlers.Replies.{Reply, json, text}

pub record LoginRequest : Type 0 where
  pub email : String
  pub password : String

pub record UserDto : Type 0 where
  pub id : ℕ
  pub email : String
  pub role : Role

pub record LoginResponse : Type 0 where
  pub token : String
  pub user : UserDto

abbrev pub login_response : User → String → LoginResponse
login_response user token = record {
  token = token;
  user = record { id = user.id; email = user.email; role = user.role };
}

abbrev pub token_reply : User → Result String → Reply LoginResponse
token_reply user (ok token) = json 200 (login_response user token)
token_reply user (err _) = text 500 "token error"

unfoldable pub checked : String → User → Result (Unit {0}) → Action (Reply LoginResponse)
checked secret user (ok _) = do r ← try (issue_token secret user); pure (token_reply user r)
checked secret user (err _) = pure (text 401 "invalid credentials")

unfoldable pub known : String → String → Result User → Action (Reply LoginResponse)
known secret password (ok user) = do
  r ← try (check_password user.password_hash password)
  checked secret user r
known secret password (err _) = pure (text 401 "invalid credentials")

unfoldable pub login : String → Option LoginRequest → Action (Reply LoginResponse)
login secret none = pure (text 400 "invalid json")
login secret (some req) = do r ← try (get_user_by_email req.email); known secret req.password r
