-- ===== src/Runner/Untouched.antt =====
-- `Handle` leaves the queues and the keys of the rows alone.
pub mod Calls
use otel_forge.Prelude.{ℕ}
use otel_forge.Models.{Bytes, Job, EventDetail}
use otel_forge.Action.Rules.{Does}
use otel_forge.Runner.{work_on, handle}
use otel_forge.Runner.Effects.{JobCalls, work_on-Does}
use otel_forge.Runner.Frame.{KeepsKeys, KeepsKeys-Frame, frame_rules}
use Calls.{
  get_job-Does, get_event-Does, get_instance-Does, update_job_running-Does, add_job_check-Does,
  update_job_activity-Does, update_job_result-Does, update_event_status-Does, pin-Does,
  rollup_event-Does, send-Does,
}

key_calls : (job_id event_id : ℕ) → JobCalls KeepsKeys job_id event_id
key_calls job_id event_id = record {
  session = record { frame = KeepsKeys-Frame; pins = pin-Does; sends = send-Does };
  running = update_job_running-Does job_id;
  activity = update_job_activity-Does job_id;
  result = update_job_result-Does job_id;
  checks = add_job_check-Does job_id;
  status = update_event_status-Does event_id;
  rollup = rollup_event-Does event_id;
}

work_on-KeepsKeys :
    (key : Bytes) (job_id : ℕ) (job : Job) (ev : EventDetail)
    → Does KeepsKeys (work_on key job_id job ev)
work_on-KeepsKeys key job_id job ev =
    work_on-Does job_id ev (key_calls job_id ev.id) key job (get_instance-Does job.instance_id)

-- Whatever happens, `Handle` changes neither queue and no key of a row, and adds and removes no
-- job, no event and no instance.
pub handle_untouched : (key : Bytes) (job_id : ℕ) → Does KeepsKeys (handle key job_id)
unfolding handle
handle_untouched key job_id =
    search (frame_rules, get_job-Does, get_event-Does, work_on-KeepsKeys) depth 12
