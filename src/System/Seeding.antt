-- ===== src/System/Seeding.antt =====
-- What a run of the seed program does to the world, by what the insertion of a user does.
use otel_forge.Prelude.{ℕ, ◌+◌, String, List, [], ◌∷◌, ◌++◌}
use otel_forge.Models.{Role, User}
use otel_forge.Action.{World, Action, modify_db}
use otel_forge.Action.Rules.{Frame, Does, does_rules}
use otel_forge.Crypto.Password.{hash_password}
use otel_forge.Database.{wrap, connect, run_migrations, migrate}
use otel_forge.Store.Users.{create_user}
use otel_forge.Seed.{seed}

module _ {R : World → World → Type 0} (frame : Frame R)
    (inserts : (u : User) → Does R (modify_db (λ d. record d { users = d.users ++ u ∷ [] }))) where
  create_user-Does : (email hash : String) (role : Role) → Does R (create_user email hash role)
  unfolding create_user
  create_user-Does email hash role = search does_rules depth 20

  wrap-Does : {A : Type 0} (s : String) (m : Action A) → Does R m → Does R (wrap s m)
  unfolding wrap
  wrap-Does s m d = search does_rules depth 9

  run_migrations-Does : (i : ℕ) (scripts : List String) → Does R (run_migrations i scripts)
  unfolding run_migrations
  run_migrations-Does i [] = search does_rules
  run_migrations-Does i (sql ∷ rest) =
      let later = run_migrations-Does (i + 1) rest in search (does_rules, wrap-Does) depth 12

  pub seed-Does :
      (getenv : String → String) (email password : String) (role : Role)
      → Does R (seed getenv email password role)
  unfolding seed connect migrate hash_password
  seed-Does getenv email password role =
      search (does_rules, wrap-Does, run_migrations-Does, create_user-Does) depth 30
