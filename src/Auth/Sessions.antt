-- ===== src/Auth/Sessions.antt =====
-- The token of a login lets its user in.
use Prim.Native.String as Text
use Prim.Native.String.append
use Prim.Native.Char.{code}
use otel_forge.Prelude.{
  ℕ, ◌+◌, ◌^◌, ◌≤◌, ◌≡◌, ◌∙◌, refl, sym, ap, subst, String, Option, none, some, ◌==◌, ==_refl,
  first,
}
use otel_forge.Prelude.Text.{◌⧺◌, strip_prefix}
use otel_forge.Models.{User}
use otel_forge.Action.{Claims, SigningMethod, hs256, Env, World, Action, ok, try, ◌>>=◌}
use otel_forge.Store.Users.{get_user_by_id}
use otel_forge.Auth.{
  token_lifetime, keys_for, parse_token, with_user, with_claims, with_bearer, require_auth,
}
use otel_forge.Handlers.Replies.{Reply, json}
use otel_forge.Handlers.Login.{LoginRequest, LoginResponse, login}
use otel_forge.Auth.Tokens.{login_authenticates}

-- The documented behaviour of the token library: under the key that it was signed with, a token is
-- read back until a second before it expires, since its times are whole seconds.
pub record SignsAndReads (env : Env) : Type 0 where
  pub reads :
      (secret : String) (keys : SigningMethod → Option String) (c : Claims) (token : String)
      (time : ℕ)
      → env.sign_token secret c ≡ some token
      → keys hs256 ≡ some secret
      → time + 10 ^ 9 ≤ c.expires_at
      → (c' : Claims) × (env.read_token keys time token ≡ some c') × (c'.subject ≡ c.subject)

strip_prefix-append : (p s : String) → strip_prefix p (p ⧺ s) ≡ some s
strip_prefix-append Text.[] s = ap (λ t. some t) (append.nil s)
strip_prefix-append (Text.◌∷◌ c p) s =
    ap (strip_prefix (Text.◌∷◌ c p)) (append.cons c p s)
    ∙ rw (==_refl (code c)) (strip_prefix-append p s)

parse_token_ok :
    (secret token : String) (c : Claims) (env : Env) (w : World)
    → env.read_token (keys_for secret) (env.now w.calls) token ≡ some c
    → parse_token secret token env w ≡ (ok c, record w { calls = w.calls + 1 })
unfolding parse_token ◌>>=◌
parse_token_ok secret token c env w h = rw h refl

get_user_by_id_ok :
    (id : ℕ) (env : Env) (w : World) {u : User}
    → env.fault w.calls ≡ none
    → first (λ (u : User). u.id == id) w.users ≡ some u
    → get_user_by_id id env w ≡ (ok u, record w { calls = w.calls + 1 })
unfolding get_user_by_id ◌>>=◌
get_user_by_id_ok id env w fine found = rw (fine, found) refl

module _ {A : Type 0} (secret : String) (next : User → Action (Reply A)) (env : Env)
    (later : World) where
  -- A valid token of a user who is in the table lets the request through.
  require_auth_ok :
      (token : String) (c : Claims) {u : User}
      → env.read_token (keys_for secret) (env.now later.calls) token ≡ some c
      → env.fault (later.calls + 1) ≡ none
      → first (λ (u : User). u.id == c.subject) later.users ≡ some u
      → require_auth secret next ("Bearer " ⧺ token) env later
        ≡ next u env (record later { calls = later.calls + 1 + 1 })
  unfolding require_auth with_bearer with_claims with_user ◌>>=◌ try
  require_auth_ok token c {u} read fine found =
      let w1 = record later { calls = later.calls + 1 } in
      let parsed = parse_token_ok secret token c env later read in
      let known : get_user_by_id c.subject env w1
          ≡ (ok u, record w1 { calls = later.calls + 1 + 1 }) =
        get_user_by_id_ok c.subject env w1 fine found in
      rw (strip_prefix-append "Bearer " token, parsed, known) refl

-- The token of a login opens every protected handler to the user that the answer shows, as this
-- user's row is then, under a token library that reads what it has signed: as long as a second
-- before the end of the 24 hours, the row is there and its query does not fail.
pub login_opens :
    {A : Type 0} (secret : String) (req : LoginRequest) (env : Env) (w later : World) (n : ℕ)
    (resp : LoginResponse) (next : User → Action (Reply A)) (u : User)
    → SignsAndReads env
    → (login secret (some req) env w).0 ≡ ok (json n resp)
    → first (λ (u : User). u.id == resp.user.id) later.users ≡ some u
    → env.fault (later.calls + 1) ≡ none
    → env.now later.calls + 10 ^ 9 ≤ env.now (w.calls + 1) + token_lifetime
    → require_auth secret next ("Bearer " ⧺ resp.token) env later
      ≡ next u env (record later { calls = later.calls + 1 + 1 })
login_opens secret req env w later n resp next u law h found fine in_time =
    let (_, l) = login_authenticates secret req env w n resp h in
    let (c, read, same) =
      law.reads secret (keys_for secret) l.claims resp.token (env.now later.calls) l.signed refl
        (subst (λ t. env.now later.calls + 10 ^ 9 ≤ t) (sym l.lasts) in_time) in
    let subject : c.subject ≡ resp.user.id =
      same ∙ l.for_the_user ∙ ap (λ (x : LoginResponse). x.user.id) (sym l.shown) in
    require_auth_ok secret next env later resp.token c read fine
      (subst (λ id. first (λ (u : User). u.id == id) later.users ≡ some u) (sym subject) found)
