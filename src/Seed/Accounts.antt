-- ===== src/Seed/Accounts.antt =====
-- A user whom the seed program has made can log in.
use otel_forge.Prelude.{
  ℕ, ◌+◌, String, ◌≡◌, ◌∙◌, refl, ap, true, false, not, ◌||◌, is_blank, none, some, List, [], ◌∷◌,
  ◌++◌, str_eq, eq_iff, exists, first, arith, ◌==◌,
}
use otel_forge.Models.{Role, User}
use otel_forge.Action.{
  Env, World, Claims, Result, ok, lift, require, seed_usage, pure, try, ◌>>=◌, ◌>>◌,
}
use otel_forge.Action.Rules.{>>=-eq-ok}
use otel_forge.Config.{load}
use otel_forge.Crypto.Password.{hash_password, check_password}
use otel_forge.Database.{connect, migrate}
use otel_forge.Store.Users.{create_user, get_user_by_email}
use otel_forge.Auth.{issue_token}
use otel_forge.Handlers.Replies.{json}
use otel_forge.Handlers.Login.{login_response, checked, known, login}
use otel_forge.Seed.{seed}

-- The documented behaviour of bcrypt and of the token library: the hash of a password matches it,
-- and every claims are signed.
pub record HashesAndSigns (env : Env) : Type 0 where
  pub matches :
      (n : ℕ) (plain hash : String)
      → env.bcrypt_hash n plain ≡ some hash
      → env.bcrypt_matches hash plain ≡ true
  pub signs :
      (secret : String) (c : Claims) → (token : String) × (env.sign_token secret c ≡ some token)

-- The new row, and that its address is new.
create_user_ok :
    (email hash : String) (role : Role) (env : Env) (w : World) {u : User}
    → (create_user email hash role env w).0 ≡ ok u
    → ((create_user email hash role env w).1.users ≡ w.users ++ u ∷ [])
      × (u.email ≡ email)
      × (u.password_hash ≡ hash)
      × (exists (λ (v : User). str_eq v.email email || v.id == env.fresh w.calls) w.users ≡ false)
unfolding create_user ◌>>=◌
create_user_ok email hash role env w h = ground arith

hash_password_ok :
    (plain : String) (env : Env) (w : World) {hash : String}
    → (hash_password plain env w).0 ≡ ok hash
    → env.bcrypt_hash w.calls plain ≡ some hash
unfolding hash_password ◌>>=◌
hash_password_ok plain env w h = ground arith

first_added :
    (email : String) (id : ℕ) (users : List User) (u : User)
    → exists (λ (v : User). str_eq v.email email || v.id == id) users ≡ false
    → u.email ≡ email
    → first (λ (v : User). str_eq v.email email) (users ++ u ∷ []) ≡ some u
first_added email id [] u unused same = ground (arith, eq_iff u.email email)
first_added email id (v ∷ users) u unused same = ground (arith, first_added email id users u)

-- A login, by what it meets.
login_ok :
    (secret email password : String) (env : Env) (w : World) (user : User)
    → HashesAndSigns env
    → env.fault w.calls ≡ none
    → first (λ (v : User). str_eq v.email email) w.users ≡ some user
    → env.bcrypt_matches user.password_hash password ≡ true
    → (token : String) × ((login secret
          (some (record { email = email; password = password }))
          env
          w).0
        ≡ ok (json 200 (login_response user token)))
unfolding login known checked get_user_by_email check_password issue_token ◌>>=◌ try pure require
login_ok secret email password env w user laws fine found matches =
    let (token, signed) = laws.signs secret (record {
      email = user.email;
      role = user.role;
      subject = user.id;
      expires_at = env.now (w.calls + 1) + otel_forge.Auth.token_lifetime;
      issued_at = env.now (w.calls + 1 + 1);
    }) in
    (token, rw (fine, found, matches, signed) refl)

-- After a run of the seed program that made a user, a login with the address and the password that
-- it was given is answered 200, with this user and a token, as long as the table of users is as it
-- was left and the query does not fail, under a hash that its password matches and a token library
-- that signs.
pub login-seed :
    (getenv : String → String) (email password secret : String) (role : Role) (user : User)
    (env : Env) (w later : World)
    → HashesAndSigns env
    → (seed getenv email password role env w).0 ≡ ok user
    → later.users ≡ (seed getenv email password role env w).1.users
    → env.fault later.calls ≡ none
    → (token : String) × ((login secret
          (some (record { email = email; password = password }))
          env
          later).0
        ≡ ok (json 200 (login_response user token)))
unfolding seed
login-seed getenv email password secret role user env w later laws h kept fine =
    let given = not (is_blank email || is_blank password) in
    let make = λ (hash : String). create_user email hash role in
    let (_, h0, k0, e0) =
      >>=-eq-ok (require given seed_usage)
        (λ _. lift (load getenv) >>= λ _. connect >> (migrate >> (hash_password password >>= make)))
        env w h in
    let w0 = (require given seed_usage env w).1 in
    let (_, h1, k1, e1) =
      >>=-eq-ok (lift (load getenv))
        (λ _. connect >> (migrate >> (hash_password password >>= make))) env w0 k0 in
    let w1 = (lift (load getenv) env w0).1 in
    let (_, h2, k2, e2) =
      >>=-eq-ok connect (λ _. migrate >> (hash_password password >>= make)) env w1 k1 in
    let w2 = (connect env w1).1 in
    let (_, h3, k3, e3) = >>=-eq-ok migrate (λ _. hash_password password >>= make) env w2 k2 in
    let w3 = (migrate env w2).1 in
    let (hash, h4, k4, e4) = >>=-eq-ok (hash_password password) make env w3 k3 in
    let w4 = (hash_password password env w3).1 in
    let hashed = hash_password_ok password env w3 h4 in
    let (users, address, stored, unused) = create_user_ok email hash role env w4 k4 in
    let end : (seed getenv email password role env w).1.users ≡ w4.users ++ user ∷ [] =
      ap (λ (o : Result User × World). o.1.users) (e0 ∙ e1 ∙ e2 ∙ e3 ∙ e4) ∙ users in
    login_ok secret email password env later user laws fine
      (rw (kept ∙ end) (first_added email (env.fresh w4.calls) w4.users user unused address))
      (rw stored (laws.matches w3.calls password hash hashed))
