-- ===== src/Service/RerunFailure.antt =====
-- What `RerunFailed` leaves behind where it returns an error.
use otel_forge.Prelude.{ℕ, ◌≡◌, ◌⊎◌, ◌++◌, map, select, update, take, length, ◌<◌, first, some}
use otel_forge.Models.{Event}
use otel_forge.Action.{World}
use otel_forge.Store.Events.{event_has_id}
use otel_forge.Store.Jobs.{failed_of, reset}
use otel_forge.Service.Launch.{delivery_of, set_running}

-- Where a rerun stops once the failed jobs are queued again. Either no message was sent, and the
-- event is as it was or running; or the event is running and messages of its task were sent for the
-- first of the jobs, and for at least one job none.
pub data SentBefore (id : ℕ) (w w' : World) : Type 0 where
  none_sent :
      (w'.events ≡ w.events) ⊎ (w'.events ≡ update (event_has_id id) set_running w.events)
      → w'.ready ≡ w.ready
      → SentBefore id w w'
  first_sent :
      (ev : Event) (published : ℕ)
      → w'.events ≡ update (event_has_id id) set_running w.events
      → first (event_has_id id) w'.events ≡ some ev
      → published < length (map reset (select (failed_of id) w.jobs))
      → w'.ready
        ≡ w.ready
          ++ take published
              (map (delivery_of ev.task_type) (map reset (select (failed_of id) w.jobs)))
      → SentBefore id w w'

-- The failed jobs are queued again, and the messages for all of them have not been sent.
pub record HalfRerun (id : ℕ) (w w' : World) : Type 0 where
  pub jobs_then : w'.jobs ≡ update (failed_of id) reset w.jobs
  pub sent_before : SentBefore id w w'
