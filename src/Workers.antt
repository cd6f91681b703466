-- ===== src/Workers.antt =====
-- Several workers on the jobs of one event: the statements of internal/db/store.go that they send,
-- in any order. `RollupEvent` sends three, between which those of other workers may come.
pub mod Monotone
pub mod NeverAhead
pub mod Start
use otel_forge.Prelude.{ℕ, ◌≡◌, ◌==◌, true, false, All, Bool, List, String, if◌then◌else◌}
use otel_forge.Prelude.Int.{ℤ}
use otel_forge.Prelude.Text.{bytes}
use otel_forge.Models.{Bytes, JobStatus, EventStatus, Job}
use otel_forge.Action.{Env, World, Action, pure, lift, ◌>>=◌, ◌>>◌}
use otel_forge.Config.{load}
use otel_forge.Database as Database
use otel_forge.Database.{migrate}
use otel_forge.Queue.Setup as Setup
use otel_forge.Queue.Setup.{declare}
use otel_forge.Store.Events.{update_event_status}
use otel_forge.Store.Jobs.{job_has_id, update_job_running, update_job_result}
use otel_forge.Store.Rollup.{Counts, count_jobs, count_pending, write_rollup}

-- The start of the worker's `main`: the key of the runner, and how many goroutines call `Consume`.
unfoldable pub start : (String → String) → Action (Bytes × ℤ)
start getenv = do
  cfg ← lift (load getenv)
  Database.connect
  migrate
  Setup.connect
  declare
  pure (bytes cfg.encryption_key, cfg.worker_concurrency)

-- How far a worker is in `RollupEvent`: what it has read of the event.
pub data Phase : Type 0 where
  outside : Phase
  counted : ℕ → Counts → Phase
  summed : ℕ → Counts → ℕ → Phase

-- The world, and where each worker is.
pub record Shared : Type 0 where
  pub world : World
  pub phases : ℕ → Phase

abbrev pub moved : ℕ → Phase → (ℕ → Phase) → ℕ → Phase
moved k p phases n = if n == k then p else phases n

abbrev pub is_final : JobStatus → Bool
is_final JobStatus.verified = true
is_final JobStatus.failed = true
is_final _ = false

-- The job is queued or running.
abbrev pub NotFinal : ℕ → List Job → Type 0
NotFinal id = All (λ (j : Job). job_has_id id j ≡ true → is_final j.status ≡ false)

-- One statement of one worker, or its failure. As in the source, no statement looks at whether the
-- job has ended: a second delivery may start it again.
pub data Statement : Shared → Shared → Type 0 where
  event_starts :
      (event_id : ℕ) (env : Env) (w : World) (phases : ℕ → Phase)
      → Statement
          (record { world = w; phases = phases })
          (record {
            world = (update_event_status event_id EventStatus.running env w).1;
            phases = phases;
          })
  job_starts :
      (id : ℕ) (env : Env) (w : World) (phases : ℕ → Phase)
      → Statement
          (record { world = w; phases = phases })
          (record { world = (update_job_running id env w).1; phases = phases })
  job_ends :
      (id : ℕ) (s : JobStatus) (out errors : String) (code : ℕ) (env : Env) (w : World)
      (phases : ℕ → Phase)
      → is_final s ≡ true
      → Statement
          (record { world = w; phases = phases })
          (record { world = (update_job_result id s out errors code env w).1; phases = phases })
  counts :
      (k event_id : ℕ) (w : World) (phases : ℕ → Phase)
      → phases k ≡ outside
      → Statement
          (record { world = w; phases = phases })
          (record {
            world = w;
            phases = moved k (counted event_id (count_jobs event_id w.jobs)) phases;
          })
  sums :
      (k event_id : ℕ) (c : Counts) (w : World) (phases : ℕ → Phase)
      → phases k ≡ counted event_id c
      → Statement
          (record { world = w; phases = phases })
          (record {
            world = w;
            phases = moved k (summed event_id c (count_pending event_id w.jobs)) phases;
          })
  writes :
      (k event_id : ℕ) (c : Counts) (pending : ℕ) (w : World) (phases : ℕ → Phase)
      → phases k ≡ summed event_id c pending
      → Statement
          (record { world = w; phases = phases })
          (record {
            world = record w {
              db = record w.db { events = write_rollup event_id c pending w.events };
            };
            phases = moved k outside phases;
          })
  gives_up :
      (k : ℕ) (w : World) (phases : ℕ → Phase)
      → Statement
          (record { world = w; phases = phases })
          (record { world = w; phases = moved k outside phases })

pub data Statements (start : Shared) : Shared → Type 0 where
  none_yet : Statements start start
  then_one : {u v : Shared} → Statements start u → Statement u v → Statements start v

-- The statement is on a job that has not ended, if it starts or ends one.
unfoldable pub OnOpenJob : {u v : Shared} → Statement u v → Type 0
OnOpenJob (job_starts id env w phases) = NotFinal id w.jobs
OnOpenJob (job_ends id s out errors code env w phases final) = NotFinal id w.jobs
OnOpenJob _ = Unit

-- No job that has ended is started or ended on the way: each has one delivery that begins it, and
-- none of these is made again after its end.
unfoldable pub EndsOnce : {start s : Shared} → Statements start s → Type 0
unfolding OnOpenJob
EndsOnce none_yet = Unit
EndsOnce (then_one before now) = EndsOnce before × OnOpenJob now
