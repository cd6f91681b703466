-- ===== src/Store/Rollup.antt =====
-- internal/db/store.go, `RollupEvent`: the status and the counts of an event from its jobs.
pub mod Status
pub mod Summary
use otel_forge.Prelude.{ℕ, Bool, ◌&&◌, ◌||◌, List, ◌==◌, if◌then◌else◌, count, update}
use otel_forge.Models.{EventStatus, JobStatus, same_job_status, Event, Job}
use otel_forge.Action.{Action, ◌>>=◌, ◌>>◌, get_db, modify_db, call}
use otel_forge.Store.Events.{event_has_id}
use otel_forge.Store.Jobs.{of_event}

-- The first statement: the verified, the failed and all jobs of the event.
pub record Counts : Type 0 where
  pub verified : ℕ
  pub failed : ℕ
  pub total : ℕ

abbrev pub with_status : JobStatus → ℕ → Job → Bool
with_status s event_id j = of_event event_id j && same_job_status j.status s

unfoldable pub count_jobs : ℕ → List Job → Counts
count_jobs event_id jobs = record {
  verified = count (with_status JobStatus.verified event_id) jobs;
  failed = count (with_status JobStatus.failed event_id) jobs;
  total = count (of_event event_id) jobs;
}

-- The second statement: `status IN ('QUEUED','RUNNING')`
abbrev pub is_pending : ℕ → Job → Bool
is_pending event_id j =
    of_event event_id j
    && (same_job_status j.status JobStatus.queued || same_job_status j.status JobStatus.running)

unfoldable pub count_pending : ℕ → List Job → ℕ
count_pending event_id jobs = count (is_pending event_id) jobs

-- The switch.
unfoldable pub rollup_status : Counts → ℕ → EventStatus
rollup_status c pending =
    if pending == 0
    then (if c.verified == c.total
        then EventStatus.completed
        else if c.failed == c.total
        then EventStatus.failed
        else EventStatus.partial)
    else EventStatus.running

-- The third statement.
unfoldable pub write_rollup : ℕ → Counts → ℕ → List Event → List Event
write_rollup event_id c pending events =
    update (event_has_id event_id)
      (λ e. record e {
        status = rollup_status c pending;
        verified_count = c.verified;
        failed_count = c.failed;
        total_jobs = c.total;
      })
      events

unfoldable pub rollup_event : ℕ → Action (Unit {0})
rollup_event event_id = do
  call
  db ← get_db
  let c = count_jobs event_id db.jobs
  call
  db' ← get_db
  let pending = count_pending event_id db'.jobs
  call
  modify_db (λ d. record d { events = write_rollup event_id c pending d.events })
