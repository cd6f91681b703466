-- ===== src/Config/Bounds.antt =====
-- What holds of a configuration that is loaded.
use otel_forge.Prelude.{
  ℕ, zero, suc, false, ◌∙◌, ◌^◌, ◌≤◌, ◌<◌, ◌≡◌, ◌≢◌, refl, String, eq_iff, arith, is_blank,
}
use otel_forge.Prelude.Int.{ℤ, pos, negsuc}
use otel_forge.Prelude.Text.{codes}
use otel_forge.Prelude.Atoi.{atoi, IsInt, atoi_codes-IsInt}
use otel_forge.Action.{ok}
use otel_forge.Config.{Config, load, env_or, at_least_one}

pub load_ok :
    (getenv : String → String) {c : Config}
    → load getenv ≡ ok c
    → (is_blank (getenv "DATABASE_URL") ≡ false)
      × (is_blank (getenv "ENCRYPTION_KEY") ≡ false)
      × (c.database_url ≡ getenv "DATABASE_URL")
      × (c.encryption_key ≡ getenv "ENCRYPTION_KEY")
      × (c.worker_concurrency ≡ at_least_one (atoi (env_or getenv "WORKER_CONCURRENCY" "2")))
unfolding load
load_ok getenv h = ground arith

at_least_one_range : (z : ℤ) → IsInt z → (n : ℕ) × (at_least_one z ≡ pos n) × (1 ≤ n) × (n < 2 ^ 63)
at_least_one_range (pos zero) h = (1, refl, omega arith, omega arith)
at_least_one_range (pos (suc n)) h = (suc n, ground arith, omega arith, h)
at_least_one_range (negsuc n) h = (1, ground arith, omega arith, omega arith)

given : (s : String) → is_blank s ≡ false → s ≢ ""
given s h e = ground (arith, eq_iff s "")

-- A configuration that `Load` returns has the two required variables as they are set, not empty,
-- and a count of workers from 1 to the largest `int`, whatever WORKER_CONCURRENCY holds.
pub load_bounds :
    (getenv : String → String) (c : Config)
    → load getenv ≡ ok c
    → ((n : ℕ) × (c.worker_concurrency ≡ pos n) × (1 ≤ n) × (n < 2 ^ 63))
      × (c.database_url ≡ getenv "DATABASE_URL")
      × (c.database_url ≢ "")
      × (c.encryption_key ≡ getenv "ENCRYPTION_KEY")
      × (c.encryption_key ≢ "")
unfolding atoi
load_bounds getenv c h =
    let (some_db, some_key, db, key, workers) = load_ok getenv h in
    let text = env_or getenv "WORKER_CONCURRENCY" "2" in
    let (n, e, lo, hi) =
      at_least_one_range (atoi text) (unfold atoi in atoi_codes-IsInt (codes text)) in
    ((n, workers ∙ e, lo, hi), db, rw db (given _ some_db), key, rw key (given _ some_key))
