-- ===== src/Runner/Others.antt =====
-- What `Handle` leaves alone beside its job and the row of its event.
use otel_forge.Prelude.{
  ℕ, String, ◌≡◌, ◌∙◌, refl, Bool, true, not, ◌&&◌, some, List, select, select-update, update,
  arith,
}
use otel_forge.Models.{
  Bytes, JobStatus, same_job_status, EventStatus, CheckPhase, Job, JobCheck, Instance, Event,
  EventDetail,
}
use otel_forge.Action.{World, Db, modify_db}
use otel_forge.Action.Rules.{Frame, Does, does_rules}
use otel_forge.Store.Events.{event_has_id, get_event, update_event_status}
use otel_forge.Store.Jobs.{
  job_has_id, get_job, update_job_running, update_job_activity, update_job_result, add_job_check,
}
use otel_forge.Store.Instances.{get_instance, update_instance_host_key_fingerprint}
use otel_forge.Store.Rollup.{write_rollup, rollup_event}
use otel_forge.Ssh.Client.{send}
use otel_forge.Runner.{work_on}
use otel_forge.Runner.Effects.{JobCalls, work_on-Does}

-- The jobs and the events but these two are as they were.
pub record OthersSame (job_id event_id : ℕ) (w w' : World) : Type 0 where
  pub jobs_same :
      select (λ j. not (job_has_id job_id j)) w'.jobs
      ≡ select (λ j. not (job_has_id job_id j)) w.jobs
  pub events_same :
      select (λ e. not (event_has_id event_id e)) w'.events
      ≡ select (λ e. not (event_has_id event_id e)) w.events

module _ (job_id event_id : ℕ) where
  pub Others-Frame : Frame (OthersSame job_id event_id)
  Others-Frame = record {
    same = λ w. record { jobs_same = refl; events_same = refl };
    then_ = λ u v w h k. record {
      jobs_same = k.jobs_same ∙ h.jobs_same;
      events_same = k.events_same ∙ h.events_same;
    };
    counted = λ w n. record { jobs_same = refl; events_same = refl };
  }

  set_job :
      (p : Job → Bool) (f : Job → Job)
      → ((j : Job) → p j ≡ true → job_has_id job_id j ≡ true)
      → ((j : Job) → (f j).id ≡ j.id)
      → Does (OthersSame job_id event_id) (modify_db (λ d. record d { jobs = update p f d.jobs }))
  unfolding modify_db
  set_job p f h k = record {
    at = λ env w. record {
      jobs_same =
          select-update (λ j. not (job_has_id job_id j)) p f w.jobs
            (λ j e. (rw (h j e) refl, rw (k j, h j e) refl));
      events_same = refl;
    };
  }

  set_event :
      (f : Event → Event)
      → ((e : Event) → (f e).id ≡ e.id)
      → Does
          (OthersSame job_id event_id)
          (modify_db (λ d. record d { events = update (event_has_id event_id) f d.events }))
  unfolding modify_db
  set_event f k = record {
    at = λ env w. record {
      jobs_same = refl;
      events_same =
          select-update (λ e. not (event_has_id event_id e)) (event_has_id event_id) f w.events
            (λ e h. (rw h refl, rw (k e, h) refl));
    };
  }

  running-Others : Does (OthersSame job_id event_id) (update_job_running job_id)
  unfolding update_job_running
  running-Others = search (does_rules, Others-Frame, set_job) depth 9

  activity-Others :
      (out errors : String)
      → Does (OthersSame job_id event_id) (update_job_activity job_id out errors)
  unfolding update_job_activity
  activity-Others out errors =
      let set =
        set_job (λ j. job_has_id job_id j && same_job_status j.status JobStatus.running)
          (λ j. record j { stdout = some out; stderr = some errors }) (λ j e. ground arith)
          (λ j. refl) in
      search (does_rules, Others-Frame) depth 9

  result-Others :
      (s : JobStatus) (out errors : String) (code : ℕ)
      → Does (OthersSame job_id event_id) (update_job_result job_id s out errors code)
  unfolding update_job_result
  result-Others s out errors code = search (does_rules, Others-Frame, set_job) depth 9

  status-Others :
      (s : EventStatus) → Does (OthersSame job_id event_id) (update_event_status event_id s)
  unfolding update_event_status
  status-Others s = search (does_rules, Others-Frame, set_event) depth 9

  rollup-Others : Does (OthersSame job_id event_id) (rollup_event event_id)
  unfolding rollup_event write_rollup
  rollup-Others = search (does_rules, Others-Frame, set_event) depth 12

  set_checks :
      (f : Db → List JobCheck)
      → Does (OthersSame job_id event_id) (modify_db (λ d. record d { job_checks = f d }))
  unfolding modify_db
  set_checks f = record { at = λ env w. record { jobs_same = refl; events_same = refl } }

  check-Others :
      (phase : CheckPhase) (name : String) (passed : Bool) (text : String)
      → Does (OthersSame job_id event_id) (add_job_check job_id phase name passed text)
  unfolding add_job_check
  check-Others phase name passed text = search (does_rules, Others-Frame, set_checks) depth 9

  set_instances :
      (f : Db → List Instance)
      → Does (OthersSame job_id event_id) (modify_db (λ d. record d { instances = f d }))
  unfolding modify_db
  set_instances f = record { at = λ env w. record { jobs_same = refl; events_same = refl } }

  pin-Others :
      (id : ℕ) (fp : String)
      → Does (OthersSame job_id event_id) (update_instance_host_key_fingerprint id fp)
  unfolding update_instance_host_key_fingerprint
  pin-Others id fp = search (does_rules, Others-Frame, set_instances) depth 9

  send-Others : (c : String) → Does (OthersSame job_id event_id) (send c)
  unfolding send
  send-Others c = record { at = λ env w. record { jobs_same = refl; events_same = refl } }

  get_instance-Others : (id : ℕ) → Does (OthersSame job_id event_id) (get_instance id)
  unfolding get_instance
  get_instance-Others id = search (does_rules, Others-Frame) depth 9

  pub get_job-Others : (id : ℕ) → Does (OthersSame job_id event_id) (get_job id)
  unfolding get_job
  get_job-Others id = search (does_rules, Others-Frame) depth 9

  pub get_event-Others : (id : ℕ) → Does (OthersSame job_id event_id) (get_event id)
  unfolding get_event
  get_event-Others id = search (does_rules, Others-Frame) depth 9

  other_calls : JobCalls (OthersSame job_id event_id) job_id event_id
  other_calls = record {
    session = record { frame = Others-Frame; pins = pin-Others; sends = send-Others };
    running = running-Others;
    activity = activity-Others;
    result = result-Others;
    checks = check-Others;
    status = status-Others;
    rollup = rollup-Others;
  }

pub work_on-Others :
    (key : Bytes) (job_id : ℕ) (job : Job) (ev : EventDetail)
    → Does (OthersSame job_id ev.id) (work_on key job_id job ev)
work_on-Others key job_id job ev =
    work_on-Does job_id ev (other_calls job_id ev.id) key job
      (get_instance-Others job_id ev.id job.instance_id)
