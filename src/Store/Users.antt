-- ===== src/Store/Users.antt =====
-- internal/db/store.go: the users, and the tests of ownership.
use otel_forge.Prelude.{
  ℕ, String, Bool, true, false, not, ◌||◌, [], ◌∷◌, ◌++◌, ◌==◌, str_eq, exists, first,
}
use otel_forge.Models.{Role, User, Event, Instance}
use otel_forge.Action.{
  Action, pure, lift, or_raise, ◌>>=◌, ◌>>◌, get_db, get_env, modify_db, call, require, no_rows,
  duplicate_key, check_constraint,
}

-- The schema's CHECK on `role`.
abbrev allowed_role : Role → Bool
allowed_role (Role.other _) = false
allowed_role _ = true

-- `email` is UNIQUE, and `id` the primary key.
unfoldable pub create_user : String → String → Role → Action User
create_user email password_hash role = do
  n ← call
  env ← get_env
  db ← get_db
  let u : User = record {
    id = env.fresh n;
    email = email;
    password_hash = password_hash;
    role = role;
    created_at = env.now n;
  }
  require (allowed_role role) check_constraint
  require (not (exists (λ (v : User). str_eq v.email email || v.id == u.id) db.users)) duplicate_key
  modify_db (λ d. record d { users = d.users ++ u ∷ [] })
  pure u

unfoldable pub get_user_by_email : String → Action User
get_user_by_email email = do
  call
  db ← get_db
  lift (or_raise (first (λ (u : User). str_eq u.email email) db.users) no_rows)

unfoldable pub get_user_by_id : ℕ → Action User
get_user_by_id id = do
  call
  db ← get_db
  lift (or_raise (first (λ (u : User). u.id == id) db.users) no_rows)

unfoldable pub user_owns_instance : ℕ → ℕ → Action Bool
user_owns_instance user_id instance_id = do
  call
  db ← get_db
  i ← lift (or_raise (first (λ (i : Instance). i.id == instance_id) db.instances) no_rows)
  pure (i.owner_id == user_id)

unfoldable pub user_owns_event : ℕ → ℕ → Action Bool
user_owns_event user_id event_id = do
  call
  db ← get_db
  e ← lift (or_raise (first (λ (e : Event). e.id == event_id) db.events) no_rows)
  pure (e.owner_id == user_id)
