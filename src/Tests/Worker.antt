-- ===== src/Tests/Worker.antt =====
-- The worker's theorems at concrete inputs.
use otel_forge.Prelude.{ℕ, ◌≤◌, ◌≡◌, ◌↔◌, ◌⊎◌, refl, some, [], ◌∷◌, count, first, arith}
use otel_forge.Models.{EventStatus, Job}
use otel_forge.Action.{Delivery, Error, ok, err}
use otel_forge.Store.Jobs.{job_has_id}
use otel_forge.Store.Rollup.{rollup_event}
use otel_forge.Store.Rollup.Status.{Fits, rolled_status, rolled_status_exact}
use otel_forge.Store.Rollup.Summary.{RolledUp, rollup_event_summary}
use otel_forge.Queue.{consume}
use otel_forge.Queue.RetryCount.{delivery_retry_count}
use otel_forge.Queue.Progress.{IsCounted}
use otel_forge.Queue.Fate.{held}
use otel_forge.Runner.{handle}
use otel_forge.Runner.Frame.{job_key, SameKeys}
use otel_forge.Runner.Conclusion.{HasEnded}
use otel_forge.Runner.Handle.{handle_concludes}
use otel_forge.Runner.Liveness.{handle_returns}
use otel_forge.Runner.Worker.{work, worker_drains}
use otel_forge.System.Custody.{is_for, JobDone}
use otel_forge.System.DeadLetters.{messages_end}
use otel_forge.Tests.Data.{
  calm-NothingFails, calm, broken_db, key, world, waiting, tables, delivery_20,
}

rolled_status_exact_example :
    Fits 10 (waiting ∷ []) EventStatus.running
    ↔ (rolled_status 10 (waiting ∷ []) ≡ EventStatus.running)
rolled_status_exact_example = rolled_status_exact 10 (waiting ∷ []) EventStatus.running

rollup_event_summary_example :
    let (r, w') = rollup_event 10 calm world in
    ((r ≡ ok tt) × (w'.jobs ≡ world.jobs) × RolledUp 10 w'.db)
    ⊎ ((e : Error) × (r ≡ err e) × (w'.db ≡ world.db))
rollup_event_summary_example = rollup_event_summary 10 calm world

handle_returns_example : (handle key 20 calm world).0 ≡ ok tt
handle_returns_example = handle_returns calm calm-NothingFails key 20 world refl refl refl

handle_concludes_example :
    let w' = (handle key 20 calm world).1 in
    (job : Job) × (job' : Job) × (first (job_has_id 20) world.jobs ≡ some job)
    × (first (job_has_id 20) w'.jobs ≡ some job')
    × (job_key job' ≡ job_key job)
    × HasEnded job'
    × RolledUp job.event_id w'.db
handle_concludes_example =
    handle_concludes key 20 calm world
      (handle_returns calm calm-NothingFails key 20 world refl refl refl)

delivery_20-IsCounted : IsCounted delivery_20
unfolding delivery_retry_count
delivery_20-IsCounted = record { retries = 0; counted = refl; small = omega arith }

-- The database fails all along: the message ends in the dead-letter queue.
messages_end_example :
    let w' = (consume 3 (work key) broken_db world).1 in
    (w'.ready ≡ [])
    × ((count (λ (d : Delivery). is_for 20 d.body) w'.dead ≡ held (is_for 20) world)
        ⊎ ((k : ℕ) × (1 ≤ k) × (k ≤ 3) × JobDone 20 (consume k (work key) broken_db world).1))
messages_end_example = messages_end key 20 broken_db world (delivery_20-IsCounted, tt)

worker_drains_example :
    let w' = (consume 3 (work key) calm world).1 in (w'.ready ≡ []) × SameKeys tables w'.db
worker_drains_example = worker_drains key calm world (delivery_20-IsCounted, tt)
