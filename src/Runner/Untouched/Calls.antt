-- ===== src/Runner/Untouched/Calls.antt =====
-- What the calls of `Handle` leave alone.
use otel_forge.Prelude.{ℕ, String, refl, Bool}
use otel_forge.Models.{JobStatus, EventStatus, CheckPhase}
use otel_forge.Action.Rules.{Does}
use otel_forge.Store.Instances.{get_instance, update_instance_host_key_fingerprint}
use otel_forge.Store.Events.{get_event, update_event_status}
use otel_forge.Store.Jobs.{
  get_job, update_job_running, update_job_activity, update_job_result, add_job_check,
}
use otel_forge.Store.Rollup.{write_rollup, rollup_event}
use otel_forge.Ssh.Client.{send}
use otel_forge.Runner.Frame.{
  KeepsKeys, same_keys, frame_rules, modify_jobs, modify_events, modify_instances, append_check,
}

pub get_job-Does : (id : ℕ) → Does KeepsKeys (get_job id)
unfolding get_job
get_job-Does id = search frame_rules depth 9

pub get_event-Does : (id : ℕ) → Does KeepsKeys (get_event id)
unfolding get_event
get_event-Does id = search frame_rules depth 9

pub get_instance-Does : (id : ℕ) → Does KeepsKeys (get_instance id)
unfolding get_instance
get_instance-Does id = search frame_rules depth 9

pub update_job_running-Does : (id : ℕ) → Does KeepsKeys (update_job_running id)
unfolding update_job_running
update_job_running-Does id = search (frame_rules, modify_jobs) depth 9

pub add_job_check-Does :
    (id : ℕ) (phase : CheckPhase) (name : String) (passed : Bool) (text : String)
    → Does KeepsKeys (add_job_check id phase name passed text)
unfolding add_job_check
add_job_check-Does id phase name passed text = search (frame_rules, append_check) depth 9

pub update_job_activity-Does :
    (id : ℕ) (out errors : String) → Does KeepsKeys (update_job_activity id out errors)
unfolding update_job_activity
update_job_activity-Does id out errors = search (frame_rules, modify_jobs) depth 9

pub update_job_result-Does :
    (id : ℕ) (s : JobStatus) (out errors : String) (code : ℕ)
    → Does KeepsKeys (update_job_result id s out errors code)
unfolding update_job_result
update_job_result-Does id s out errors code = search (frame_rules, modify_jobs) depth 9

pub update_event_status-Does :
    (id : ℕ) (s : EventStatus) → Does KeepsKeys (update_event_status id s)
unfolding update_event_status
update_event_status-Does id s = search (frame_rules, modify_events) depth 9

pub pin-Does : (id : ℕ) (fp : String) → Does KeepsKeys (update_instance_host_key_fingerprint id fp)
unfolding update_instance_host_key_fingerprint
pin-Does id fp = search (frame_rules, modify_instances) depth 9

pub rollup_event-Does : (id : ℕ) → Does KeepsKeys (rollup_event id)
unfolding rollup_event write_rollup
rollup_event-Does id = search (frame_rules, modify_events) depth 12

pub send-Does : (c : String) → Does KeepsKeys (send c)
unfolding send
send-Does c = record {
  at = λ env w. record { ready_same = refl; dead_same = refl; keys_same = same_keys w.db };
}
