-- ===== src/Runner/Effects.antt =====
-- What `Handle` does to the world once its rows are read, by what its calls do to it.
pub mod Session
use otel_forge.Prelude.{ℕ, String, Bool, Option, none, some}
use otel_forge.Models.{Bytes, JobStatus, EventStatus, CheckPhase, Job, EventDetail, Instance}
use otel_forge.Action.{World, Action, Result, Error, ok, err, no_job_credentials}
use otel_forge.Action.Rules.{Frame, Does, Does-if, Does-bind, Does-try, does_rules}
use otel_forge.Store.Instances.{get_instance}
use otel_forge.Store.Events.{update_event_status}
use otel_forge.Store.Jobs.{
  update_job_running, update_job_activity, update_job_result, add_job_check,
}
use otel_forge.Store.Rollup.{rollup_event}
use otel_forge.Ssh.Client.{Config, Run}
use otel_forge.Runner.{
  conclude, fail_job, fail, or_fail, record_run, execute, after_test, reach_node, lacks_credentials,
  ssh_config, run_job, begin_job, work_on,
}
use Session.{
  SessionCalls, Checks, session_frame, decrypt_column-Does, script_for-Does, verify_host_key-Does,
  run_script-Does, test_connectivity-Does,
}

-- The calls for one job of one event.
pub record JobCalls (R : World → World → Type 0) (job_id event_id : ℕ) : Type 0 where
  pub session : SessionCalls R
  pub running : Does R (update_job_running job_id)
  pub activity : (out errors : String) → Does R (update_job_activity job_id out errors)
  pub result :
      (s : JobStatus) (out errors : String) (code : ℕ)
      → Does R (update_job_result job_id s out errors code)
  pub checks :
      (phase : CheckPhase) (name : String) (passed : Bool) (text : String)
      → Does R (add_job_check job_id phase name passed text)
  pub status : (s : EventStatus) → Does R (update_event_status event_id s)
  pub rollup : Does R (rollup_event event_id)

module _ {R : World → World → Type 0} {job_id event_id : ℕ}
    (calls : JobCalls R job_id event_id) where
  frame : Frame R
  frame = calls.session.frame

  conclude-Does :
      (s : JobStatus) (out errors : String) (code : ℕ)
      → Does R (conclude job_id event_id s out errors code)
  unfolding conclude
  conclude-Does s out errors code =
      let result = calls.result in let rollup = calls.rollup in search (does_rules, frame) depth 9

  fail-Does : (step : String) (e : Error) → Does R (fail job_id event_id step e)
  unfolding fail fail_job
  fail-Does step e = conclude-Does _ _ _ _

  or_fail-Does :
      {A : Type 0} (step : String) (r : Result A) (k : A → Action (Unit {0}))
      → ((a : A) → Does R (k a))
      → Does R (or_fail job_id event_id step r k)
  unfolding or_fail
  or_fail-Does step (ok a) k dk = dk a
  or_fail-Does step (err e) k dk = fail-Does _ _

  add_check-Does :
      (phase : CheckPhase) (name : String) (passed : Bool) (text : String)
      → Does R (add_job_check job_id phase name passed text)
  add_check-Does = calls.checks

  activity-Does : (out errors : String) → Does R (update_job_activity job_id out errors)
  activity-Does = calls.activity

  record_run-Does : (run : Run) (e : Option Error) → Does R (record_run job_id event_id run e)
  unfolding record_run fail_job
  record_run-Does run (some e) = conclude-Does _ _ _ _
  record_run-Does run none = search (does_rules, frame, add_check-Does, conclude-Does) depth 9

module _ {R : World → World → Type 0} (job_id : ℕ) (ev : EventDetail)
    (calls : JobCalls R job_id ev.id) where
  module _ (inst : Instance) (cfg : Config) (checked : Checks R cfg) where
    execute-Does : Does R (execute job_id ev inst cfg)
    unfolding execute
    execute-Does =
        let fr = frame calls in
        let check = add_check-Does calls in
        let activity = activity-Does calls in
        let scripts = script_for-Does calls.session in
        let runs = run_script-Does calls.session cfg checked in
        let recorded = record_run-Does calls in
        Does-bind _ _ fr (search does_rules) (λ _. Does-bind _ _ fr (search does_rules) (λ _.
          Does-bind _ _ fr (search does_rules)
            (λ script. or_fail-Does calls _ script _ (λ s. search does_rules depth 9))))

    after_test-Does : (r : Result (Unit {0})) → Does R (after_test job_id ev inst cfg r)
    unfolding after_test fail_job
    after_test-Does (ok _) = execute-Does
    after_test-Does (err e) =
        let fr = frame calls in
        let check = add_check-Does calls in
        let concluded = conclude-Does calls in search does_rules depth 9

    reach_node-Does : Does R (reach_node job_id ev inst cfg)
    unfolding reach_node
    reach_node-Does =
        let fr = frame calls in
        let activity = activity-Does calls in
        Does-bind _ _ fr (search does_rules) (λ _.
          Does-bind _ _ fr (Does-try _ (test_connectivity-Does calls.session cfg checked))
            after_test-Does)

    run_job-Does : Does R (run_job job_id ev inst cfg)
    unfolding run_job
    run_job-Does =
        Does-if (lacks_credentials cfg) (fail job_id ev.id "credentials" no_job_credentials)
          (reach_node job_id ev inst cfg) (fail-Does calls _ _) reach_node-Does

  begin_job-Does : (key : Bytes) (inst : Instance) → Does R (begin_job key job_id ev inst)
  unfolding begin_job
  begin_job-Does key inst =
      let fr = frame calls in
      let running = calls.running in
      let status = calls.status in
      let columns = decrypt_column-Does calls.session in
      Does-bind _ _ fr running (λ _. Does-bind _ _ fr (search does_rules) (λ _.
        Does-bind _ _ fr (search does_rules) (λ password. or_fail-Does calls _ password _ (λ pw.
          Does-bind _ _ fr (search does_rules) (λ pem. or_fail-Does calls _ pem _ (λ pem_text.
            run_job-Does inst (ssh_config inst pw pem_text)
              (verify_host_key-Does calls.session inst pw pem_text)))))))

  pub work_on-Does :
      (key : Bytes) (job : Job)
      → Does R (get_instance job.instance_id)
      → Does R (work_on key job_id job ev)
  unfolding work_on
  work_on-Does key job read = Does-bind _ _ (frame calls) read (begin_job-Does key)
