-- ===== src/Runner.antt =====
-- worker/internal/runner/runner.go: the handler of one job message.
pub mod Conclusion
pub mod Frame
pub mod Effects
pub mod Others
pub mod Settled
pub mod Untouched
pub mod Handle
pub mod Liveness
pub mod Worker
use otel_forge.Prelude.{
  ℕ, String, Bool, true, false, ◌&&◌, Option, none, some, List, [], ◌∷◌, ◌==◌, is_empty, not,
  if◌then◌else◌,
}
use otel_forge.Prelude.Text.{◌⧺◌, itoa}
use otel_forge.Prelude.Int.{itoa_ℤ}
use otel_forge.Models.{
  Bytes, requires_config, task_text, EventStatus, JobStatus, CheckPhase, Instance, EventDetail, Job,
}
use otel_forge.Action.{
  Action, Result, ok, err, Error, message, raise, pure, lift, try, ignore, ◌>>=◌, ◌>>◌,
  no_job_credentials,
}
use otel_forge.Crypto.{decrypt}
use otel_forge.Store.Instances.{get_instance, update_instance_host_key_fingerprint}
use otel_forge.Store.Events.{get_event, update_event_status}
use otel_forge.Store.Jobs.{
  get_job, update_job_running, update_job_activity, update_job_result, add_job_check,
}
use otel_forge.Store.Rollup.{rollup_event}
use otel_forge.Tasks.{script_for}
use otel_forge.Ssh.Client.{Config, Run, test_connectivity, run_script}

-- The last two calls of every branch that has begun the job.
unfoldable pub conclude : ℕ → ℕ → JobStatus → String → String → ℕ → Action (Unit {0})
conclude job_id event_id status stdout stderr code = do
  update_job_result job_id status stdout stderr code
  rollup_event event_id

unfoldable pub fail_job : ℕ → ℕ → String → String → ℕ → Action (Unit {0})
fail_job job_id event_id stdout stderr code =
    conclude job_id event_id JobStatus.failed stdout stderr code

unfoldable pub fail : ℕ → ℕ → String → Error → Action (Unit {0})
fail job_id event_id step e = fail_job job_id event_id "" (step ⧺ ": " ⧺ message e) 1

-- `if err != nil { return r.fail(…) }`
unfoldable pub or_fail :
    {A : Type 0} → ℕ → ℕ → String → Result A → (A → Action (Unit {0})) → Action (Unit {0})
or_fail job_id event_id step (ok a) k = k a
or_fail job_id event_id step (err e) k = fail job_id event_id step e

-- A column that is NULL or empty is no secret.
unfoldable pub decrypt_column : Option Bytes → Bytes → Action Bytes
decrypt_column none key = pure []
decrypt_column (some []) key = pure []
decrypt_column (some (b ∷ bs)) key = decrypt (b ∷ bs) key

abbrev pinned_text : Option String → String
pinned_text none = ""
pinned_text (some fingerprint) = fingerprint

abbrev pin_callback : ℕ → Option String → Option (String → Action (Unit {0}))
pin_callback instance_id none = some (update_instance_host_key_fingerprint instance_id)
pin_callback instance_id (some _) = none

unfoldable pub ssh_config : Instance → Bytes → Bytes → Config
ssh_config inst password private_key_pem = record {
  host = inst.host;
  port = inst.port;
  user = inst.ssh_user;
  password = password;
  private_key_pem = private_key_pem;
  expected_host_key_fingerprint = pinned_text inst.ssh_host_key_fingerprint;
  pin_host_key = pin_callback inst.id inst.ssh_host_key_fingerprint;
}

abbrev status_of : ℕ → JobStatus
status_of code = if code == 0 then JobStatus.verified else JobStatus.failed

-- What follows `RunScript`.
unfoldable pub record_run : ℕ → ℕ → Run → Option Error → Action (Unit {0})
record_run job_id event_id run (some e) =
    fail_job job_id event_id run.stdout (run.stderr ⧺ message e) 1
record_run job_id event_id run none = do
  ignore (
      add_job_check job_id CheckPhase.post "task_execution" (run.exit_code == 0)
        ("exit " ⧺ itoa run.exit_code))
  conclude job_id event_id (status_of run.exit_code) run.stdout run.stderr run.exit_code

-- The configuration goes along where the task wants one.
abbrev config_for : EventDetail → Option String
config_for ev = if requires_config ev.task_type then ev.config_content else none

-- The client reaches the node: the script, and its run.
unfoldable pub execute : ℕ → EventDetail → Instance → Config → Action (Unit {0})
execute job_id ev inst cfg = do
  ignore (add_job_check job_id CheckPhase.pre "ssh_connectivity" true "reachable")
  ignore (
      update_job_activity job_id
        ("SSH connected to " ⧺ inst.name ⧺ ".\nRunning " ⧺ task_text ev.task_type ⧺ "…\n") "")
  script ← try (script_for ev.task_type)
  or_fail job_id ev.id "script" script
      (λ s. (do run ← run_script cfg s (config_for ev); record_run job_id ev.id run run.error))

-- What follows `TestConnectivity`.
unfoldable pub after_test :
    ℕ → EventDetail → Instance → Config → Result (Unit {0}) → Action (Unit {0})
after_test job_id ev inst cfg (ok _) = execute job_id ev inst cfg
after_test job_id ev inst cfg (err e) = do
  ignore (add_job_check job_id CheckPhase.pre "ssh_connectivity" false (message e))
  fail_job job_id ev.id "" (message e) 1

unfoldable pub lacks_credentials : Config → Bool
lacks_credentials cfg = is_empty cfg.password && is_empty cfg.private_key_pem

-- The test of the connection, and what follows it.
unfoldable pub reach_node : ℕ → EventDetail → Instance → Config → Action (Unit {0})
reach_node job_id ev inst cfg = do
  ignore (
      update_job_activity job_id
        ("Job started. Connecting to "
          ⧺ inst.ssh_user
          ⧺ "@"
          ⧺ inst.host
          ⧺ ":"
          ⧺ itoa_ℤ inst.port
          ⧺ "…\n")
        "")
  r ← try (test_connectivity cfg)
  after_test job_id ev inst cfg r

unfoldable pub run_job : ℕ → EventDetail → Instance → Config → Action (Unit {0})
run_job job_id ev inst cfg =
    if lacks_credentials cfg
    then fail job_id ev.id "credentials" no_job_credentials
    else reach_node job_id ev inst cfg

-- `Handle` once its three rows are read. `encryption_key` is the runner's field.
unfoldable pub begin_job : Bytes → ℕ → EventDetail → Instance → Action (Unit {0})
begin_job encryption_key job_id ev inst = do
  update_job_running job_id
  ignore (update_event_status ev.id EventStatus.running)
  password ← try (decrypt_column inst.ssh_password_enc encryption_key)
  or_fail job_id ev.id "decrypt password" password (λ password. (do
    pem ← try (decrypt_column inst.ssh_private_key_enc encryption_key)
    or_fail job_id ev.id "decrypt private key" pem
        (λ pem. run_job job_id ev inst (ssh_config inst password pem))))

unfoldable pub work_on : Bytes → ℕ → Job → EventDetail → Action (Unit {0})
work_on encryption_key job_id job ev = do
  inst ← get_instance job.instance_id
  begin_job encryption_key job_id ev inst

unfoldable pub handle : Bytes → ℕ → Action (Unit {0})
handle encryption_key job_id = do
  job ← get_job job_id
  ev ← get_event job.event_id
  work_on encryption_key job_id job ev
