-- ===== src/Server/Guards.antt =====
-- Who gets past the middleware.
use otel_forge.Prelude.{
  ℕ, String, ◌+◌, ◌≡◌, ◌∙◌, refl, sym, subst, ◌⊎◌, inl, inr, true, some, ◌==◌, first, Bool-cases,
  Option-cases,
}
use otel_forge.Prelude.Text.{strip_prefix}
use otel_forge.Models.{is_admin, User}
use otel_forge.Action.{Env, World, Action, Result, ok, pure, ◌>>=◌, Claims}
use otel_forge.Store.Users.{get_user_by_id}
use otel_forge.Auth.{
  keys_for, parse_token, with_user, with_claims, with_bearer, require_auth, require_admin,
  unauthorized, forbidden,
}
use otel_forge.Handlers.Replies.{Reply}
use otel_forge.Server.{
  Settings, UserRequest, AdminRequest, protected, admin, handle_user, handle_admin, serve,
}

-- The token of the header is read, under the server's secret, and names a user of the table.
pub record Authenticated (secret header : String) (env : Env) (w : World) (user : User)
    : Type 0 where
  pub token : String
  pub bearer : strip_prefix "Bearer " header ≡ some token
  pub claims : Claims
  pub read : env.read_token (keys_for secret) (env.now w.calls) token ≡ some claims
  pub found : first (λ (u : User). u.id == claims.subject) w.users ≡ some user

module _ {A : Type 0} (secret : String) (next : User → Action (Reply A)) (header : String)
    (env : Env) (w : World) where
  -- What the middleware comes to: a refusal, or the next handler; it only counts its calls.
  abbrev pub Passed : Result (Reply A) × World → Type 0
  Passed o =
      ((n : ℕ) × (o ≡ (ok unauthorized, record w { calls = n })))
      ⊎ ((user : User) × (n : ℕ) × Authenticated secret header env w user
          × (o ≡ next user env (record w { calls = n })))

  with_user-Passed :
      (token : String) (c : Claims)
      → strip_prefix "Bearer " header ≡ some token
      → env.read_token (keys_for secret) (env.now w.calls) token ≡ some c
      → Passed (with_claims secret next (ok c) env (record w { calls = w.calls + 1 }))
  unfolding with_claims with_user get_user_by_id ◌>>=◌ pure
  with_user-Passed token c bearer read = elim (Option-cases (env.fault (w.calls + 1))) [
    | inr (e, failed) ↦ inl (w.calls + 1 + 1, rw failed refl)
    | inl fine ↦ elim (Option-cases (first (λ (u : User). u.id == c.subject) w.users)) [
      | inl missing ↦ inl (w.calls + 1 + 1, rw (fine, missing) refl)
      | inr (u, found) ↦ inr (
        u,
        w.calls + 1 + 1,
        record { token = token; bearer = bearer; claims = c; read = read; found = found },
        rw (fine, found) refl,
      )
    ]
  ]

  with_token-Passed :
      (token : String)
      → strip_prefix "Bearer " header ≡ some token
      → Passed (with_bearer secret next (some token) env w)
  unfolding with_bearer with_claims parse_token ◌>>=◌ pure
  with_token-Passed token bearer =
      elim (Option-cases (env.read_token (keys_for secret) (env.now w.calls) token)) [
        | inl unread ↦ inl (w.calls + 1, rw unread refl)
        | inr (c, read) ↦ rw read (with_user-Passed token c bearer read)
      ]

  require_auth-Passed : Passed (require_auth secret next header env w)
  unfolding require_auth with_bearer pure
  require_auth-Passed = elim (Option-cases (strip_prefix "Bearer " header)) [
    | inl other ↦ inl (w.calls, rw other refl)
    | inr (token, bearer) ↦ rw bearer (with_token-Passed token bearer)
  ]

-- What `RequireAuth` and `RequireAdmin` come to, one after the other.
abbrev pub AdminPassed :
    {A : Type 0} (secret : String) (next : User → Action (Reply A)) (header : String) (env : Env)
    (w : World)
    → Result (Reply A) × World
    → Type 0
AdminPassed secret next header env w o =
    ((n : ℕ) × (o ≡ (ok unauthorized, record w { calls = n })))
    ⊎ (((n : ℕ) × (o ≡ (ok forbidden, record w { calls = n })))
        ⊎ ((user : User) × (m : ℕ) × (n : ℕ) × Authenticated secret header env
              (record w { calls = m }) user
            × (is_admin user.role ≡ true)
            × (o ≡ next user env (record w { calls = n }))))

require_admin-AdminPassed :
    {A : Type 0} (secret : String) (next : User → Action (Reply A)) (header : String) (env : Env)
    (w : World) (m : ℕ)
    → AdminPassed secret next header env w
        (require_auth secret (require_admin next) header env (record w { calls = m }))
unfolding require_admin pure
require_admin-AdminPassed secret next header env w m =
    let v = record w { calls = m } in
    elim (require_auth-Passed secret (require_admin next) header env v) [
      | inl (n, o) ↦ inl (n, o)
      | inr (user, n, a, o) ↦ elim (Bool-cases (is_admin user.role)) [
        | inl yes_admin ↦ inr (inr (user, m, n, a, yes_admin, o ∙ rw yes_admin refl))
        | inr other ↦ inr (inl (n, o ∙ rw other refl))
      ]
    ]

-- A request to a route of `protected` is answered 401 and changes nothing, or it is the handler's,
-- on the tables and queues as they were, for a user of the table whom the token of the header
-- names. A request to a route of `admin` is answered 401 or 403 and changes nothing, or it is the
-- handler's in the same way, for such a user with the role of an administrator in the table.
pub serve_guards :
    (s : Settings) (header : String) (env : Env) (w : World) (u : UserRequest) (a : AdminRequest)
    → Passed s.jwt_secret (handle_user s u) header env w (serve s header (protected u) env w)
      × AdminPassed s.jwt_secret (handle_admin a) header env w (serve s header (admin a) env w)
unfolding serve
serve_guards s header env w u a = (
  require_auth-Passed s.jwt_secret (handle_user s u) header env w,
  elim (require_auth-Passed s.jwt_secret
      (λ (_ : User). require_auth s.jwt_secret (require_admin (handle_admin a)) header) header env
      w) [
        | inl (n, o) ↦ inl (n, o)
        | inr (user, m, _, o) ↦
            subst (AdminPassed s.jwt_secret (handle_admin a) header env w) (sym o)
              (require_admin-AdminPassed s.jwt_secret (handle_admin a) header env w m)
      ],
)
