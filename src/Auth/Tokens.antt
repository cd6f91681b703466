-- ===== src/Auth/Tokens.antt =====
-- A login gives a token only for the password of the user.
use Prim.Native.Char.{code}
use otel_forge.Prelude.{
  ℕ, ◌+◌, ◌≡◌, ◌∙◌, refl, sym, ap, subst, String, true, some, str_eq, first, arith,
}
use otel_forge.Models.{User}
use otel_forge.Action.{Claims, Env, World, Result, ok, err, pure, try, ◌>>=◌}
use otel_forge.Action.Rules.{>>=-eq-ok, try_ok}
use otel_forge.Crypto.Password.{check_password}
use otel_forge.Store.Users.{get_user_by_email}
use otel_forge.Auth.{token_lifetime, issue_token}
use otel_forge.Handlers.Replies.{json}
use otel_forge.Handlers.Login.{
  LoginRequest, LoginResponse, login_response, token_reply, checked, known, login,
}

issue_token_ok :
    (secret : String) (user : User) (env : Env) (w : World) {token : String}
    → (issue_token secret user env w).0 ≡ ok token
    → (c : Claims) × (env.sign_token secret c ≡ some token)
      × (c.subject ≡ user.id)
      × (c.expires_at ≡ env.now w.calls + token_lifetime)
unfolding issue_token ◌>>=◌
issue_token_ok secret user env w {token} h = (
  record {
    email = user.email;
    role = user.role;
    subject = user.id;
    expires_at = env.now w.calls + token_lifetime;
    issued_at = env.now (w.calls + 1);
  },
  ground arith,
  refl,
  refl,
)

check_password_ok :
    (hash plain : String) (env : Env) (w : World)
    → (check_password hash plain env w).0 ≡ ok tt
    → (env.bcrypt_matches hash plain ≡ true) × ((check_password hash plain env w).1 ≡ w)
unfolding check_password ◌>>=◌
check_password_ok hash plain env w h = ground arith

get_user_by_email_ok :
    (email : String) (env : Env) (w : World) {u : User}
    → (get_user_by_email email env w).0 ≡ ok u
    → (first (λ (u : User). str_eq u.email email) w.users ≡ some u)
      × ((get_user_by_email email env w).1 ≡ record w { calls = w.calls + 1 })
unfolding get_user_by_email ◌>>=◌
get_user_by_email_ok email env w h = ground arith

-- What an accepted login says: the user, the password, and the claims of the token.
pub record LoggedIn (secret : String) (req : LoginRequest) (resp : LoginResponse) (env : Env)
    (w : World) : Type 0 where
  pub user : User
  pub found : first (λ (u : User). str_eq u.email req.email) w.users ≡ some user
  pub password_matches : env.bcrypt_matches user.password_hash req.password ≡ true
  pub claims : Claims
  pub signed : env.sign_token secret claims ≡ some resp.token
  pub for_the_user : claims.subject ≡ user.id
  pub lasts : claims.expires_at ≡ env.now (w.calls + 1) + token_lifetime
  pub shown : resp ≡ login_response user resp.token

token_reply_json :
    (user : User) (r : Result String) {n : ℕ} {resp : LoginResponse}
    → token_reply user r ≡ json n resp
    → (token : String) × (r ≡ ok token) × (n ≡ 200) × (resp ≡ login_response user token)
token_reply_json user (ok token) h = (token, refl, cc, cc)
token_reply_json user (err _) h = cc

checked_json :
    (secret : String) (user : User) (r : Result (Unit {0})) (env : Env) (w : World) {n : ℕ}
    {resp : LoginResponse}
    → (checked secret user r env w).0 ≡ ok (json n resp)
    → (token : String) × (r ≡ ok tt)
      × (n ≡ 200)
      × ((issue_token secret user env w).0 ≡ ok token)
      × (resp ≡ login_response user token)
unfolding checked pure
checked_json secret user (err _) env w h = cc
checked_json secret user (ok tt) env w {n} {resp} h =
    let (r, tried, h1, _) =
      >>=-eq-ok (try (issue_token secret user)) (λ r. pure (token_reply user r)) env w h in
    let replied : token_reply user r ≡ json n resp = ground arith in
    let (token, signed, code, shown) = token_reply_json user r replied in
    (token, refl, code, try_ok _ env w tried ∙ signed, shown)

known_json :
    (secret : String) (req : LoginRequest) (r : Result User) (env : Env) (w : World) {n : ℕ}
    {resp : LoginResponse}
    → (known secret req.password r env w).0 ≡ ok (json n resp)
    → (user : User) × (token : String) × (r ≡ ok user)
      × (env.bcrypt_matches user.password_hash req.password ≡ true)
      × (n ≡ 200)
      × ((issue_token secret user env w).0 ≡ ok token)
      × (resp ≡ login_response user token)
unfolding known pure
known_json secret req (err _) env w h = cc
known_json secret req (ok user) env w {n} {resp} h =
    let m = check_password user.password_hash req.password in
    let (r, tried, h1, _) = >>=-eq-ok (try m) (checked secret user) env w h in
    let (token, fine, code, signed, shown) = checked_json secret user r env (try m env w).1 h1 in
    let (matches, same) =
      check_password_ok user.password_hash req.password env w (try_ok m env w tried ∙ fine) in
    let kept : (try m env w).1 ≡ w = unfold try in same in
    (
      user,
      token,
      refl,
      matches,
      code,
      subst (λ u. (issue_token secret user env u).0 ≡ ok token) kept signed,
      shown,
    )

-- A login that is answered with a value, is answered 200; the first user with that e-mail address
-- has that password under bcrypt, and what is answered shows this user and a token signed with the
-- secret for this user, for 24 hours from then.
pub login_authenticates :
    (secret : String) (req : LoginRequest) (env : Env) (w : World) (n : ℕ) (resp : LoginResponse)
    → (login secret (some req) env w).0 ≡ ok (json n resp)
    → (n ≡ 200) × LoggedIn secret req resp env w
unfolding login
login_authenticates secret req env w n resp h =
    let m = get_user_by_email req.email in
    let (r, tried, h1, _) = >>=-eq-ok (try m) (known secret req.password) env w h in
    let (user, token, fine, matches, code, issued, shown) =
      known_json secret req r env (try m env w).1 h1 in
    let (found, moved) = get_user_by_email_ok req.email env w (try_ok m env w tried ∙ fine) in
    let kept : (try m env w).1 ≡ record w { calls = w.calls + 1 } = unfold try in moved in
    let then : (issue_token secret user env (record w { calls = w.calls + 1 })).0 ≡ ok token =
      subst (λ u. (issue_token secret user env u).0 ≡ ok token) kept issued in
    let (c, signed, for_the_user, lasts) =
      issue_token_ok secret user env (record w { calls = w.calls + 1 }) then in
    (
      code,
      record {
        user = user;
        found = found;
        password_matches = matches;
        claims = c;
        signed = signed ∙ ap (λ (x : LoginResponse). some x.token) (sym shown);
        for_the_user = for_the_user;
        lasts = lasts;
        shown = shown ∙ ap (λ (x : LoginResponse). login_response user x.token) (sym shown);
      },
    )
