-- ===== src/Database.antt =====
-- internal/db/migrate.go. What the three scripts declare is in the statements of Store already: the
-- keys, the references and the checks; each script leaves the rows that are there.
use otel_forge.Prelude.{ℕ, ◌+◌, String, List, [], ◌∷◌}
use otel_forge.Prelude.Text.{◌⧺◌, itoa}
use otel_forge.Action.{Action, Result, ok, err, message, driver, pure, lift, try, call, ◌>>=◌, ◌>>◌}

-- `fmt.Errorf("…: %w", err)`
abbrev prefixed : {A : Type 0} → String → Result A → Result A
prefixed s (ok a) = ok a
prefixed s (err e) = err (driver (s ⧺ message e))

unfoldable pub wrap : {A : Type 0} → String → Action A → Action A
wrap s m = do r ← try m; lift (prefixed s r)

unfoldable pub connect : Action (Unit {0})
connect = do wrap "connect postgres: " call; wrap "ping postgres: " call; pure tt

-- The loop over the scripts, from the one at `i`.
unfoldable pub run_migrations : ℕ → List String → Action (Unit {0})
run_migrations i [] = pure tt
run_migrations i (sql ∷ rest) = do
  wrap ("run migration " ⧺ itoa (i + 1) ⧺ ": ") call
  run_migrations (i + 1) rest

unfoldable pub migrate : Action (Unit {0})
migrate =
    run_migrations 0 ("001_initial" ∷ "002_ssh_private_key" ∷ "003_ssh_host_key_fingerprint" ∷ [])
