-- ===== src/Store/Jobs.antt =====
-- internal/db/store.go: the jobs and their checks.
use otel_forge.Prelude.{
  ℕ, String, Bool, not, ◌&&◌, none, some, List, [], ◌∷◌, ◌++◌, map, ◌==◌, ◌^◌, ltb, exists, first,
  select, update, order_by,
}
use otel_forge.Models.{
  EventStatus, JobStatus, same_job_status, CheckPhase, Instance, Job, JobDetail, JobCheck,
}
use otel_forge.Action.{
  Action, pure, lift, or_raise, ◌>>=◌, ◌>>◌, get_db, get_env, modify_db, call, require, no_rows,
  number_range, foreign_key, duplicate_key,
}
use otel_forge.Store.Events.{update_event_status}

abbrev pub job_has_id : ℕ → Job → Bool
job_has_id id j = j.id == id

abbrev pub of_event : ℕ → Job → Bool
of_event event_id j = j.event_id == event_id

unfoldable pub get_job : ℕ → Action Job
get_job id = do call; db ← get_db; lift (or_raise (first (job_has_id id) db.jobs) no_rows)

unfoldable pub list_checks_for_job : ℕ → Action (List JobCheck)
list_checks_for_job job_id = do
  call
  db ← get_db
  pure (select (λ (c : JobCheck). c.job_id == job_id) db.job_checks)

-- The inner join with `instances`, on the rows that the first statement has read.
abbrev join_instance : List Instance → List Job → List (Job × Instance)
join_instance instances [] = []
join_instance instances (j ∷ js) =
    elim (first (λ (i : Instance). i.id == j.instance_id) instances) [
      | none ↦ join_instance instances js
      | some i ↦ (j, i) ∷ join_instance instances js
    ]

-- The loop over the rows, with a statement for the checks of each.
unfoldable pub fill_checks : List (Job × Instance) → Action (List JobDetail)
fill_checks [] = pure []
fill_checks ((j, i) ∷ rows) = do
  checks ← list_checks_for_job j.id
  rest ← fill_checks rows
  pure (
      record {
        job = j;
        instance_name = i.name;
        instance_host = i.host;
        instance_port = i.port;
        checks = checks;
      }
      ∷ rest)

unfoldable pub list_jobs_for_event : ℕ → Action (List JobDetail)
list_jobs_for_event event_id = do
  call
  db ← get_db
  let mine = order_by (λ (j k : Job). ltb j.id k.id) (select (of_event event_id) db.jobs)
  fill_checks (join_instance db.instances mine)

abbrev pub started_text : String
started_text = "Job started. Preparing SSH connection…\n"

-- The clock is read by the program, just before the statement.
unfoldable pub update_job_running : ℕ → Action (Unit {0})
update_job_running job_id = do
  n ← call
  env ← get_env
  modify_db (λ d. record d {
    jobs =
        update (job_has_id job_id)
          (λ j. record j {
            status = JobStatus.running;
            stdout = some started_text;
            stderr = some "";
            started_at = some (env.now n);
          })
          d.jobs;
  })

unfoldable pub update_job_activity : ℕ → String → String → Action (Unit {0})
update_job_activity job_id stdout stderr = do
  call
  modify_db (λ d. record d {
    jobs =
        update (λ (j : Job). j.id == job_id && same_job_status j.status JobStatus.running)
          (λ j. record j { stdout = some stdout; stderr = some stderr }) d.jobs;
  })

-- `exit_code` is an INT. A text that a TEXT column does not take, with a NUL or with bytes that are no
-- UTF-8, makes the call fail.
unfoldable pub update_job_result : ℕ → JobStatus → String → String → ℕ → Action (Unit {0})
update_job_result job_id status stdout stderr exit_code = do
  n ← call
  require (ltb exit_code (2 ^ 31)) number_range
  env ← get_env
  modify_db (λ d. record d {
    jobs =
        update (job_has_id job_id)
          (λ j. record j {
            status = status;
            stdout = some stdout;
            stderr = some stderr;
            exit_code = some exit_code;
            finished_at = some (env.now n);
          })
          d.jobs;
  })

-- `job_id` references `jobs`.
unfoldable pub add_job_check : ℕ → CheckPhase → String → Bool → String → Action (Unit {0})
add_job_check job_id phase name passed text = do
  n ← call
  env ← get_env
  db ← get_db
  let c : JobCheck = record {
    id = env.fresh n;
    job_id = job_id;
    phase = phase;
    name = name;
    passed = passed;
    message = text;
  }
  require (exists (job_has_id job_id) db.jobs) foreign_key
  require (not (exists (λ (k : JobCheck). k.id == c.id) db.job_checks)) duplicate_key
  modify_db (λ d. record d { job_checks = d.job_checks ++ c ∷ [] })

-- `WHERE event_id=$2 AND status=$3`
abbrev pub failed_of : ℕ → Job → Bool
failed_of event_id j = j.event_id == event_id && same_job_status j.status JobStatus.failed

abbrev pub reset : Job → Job
reset j = record j {
  status = JobStatus.queued;
  stdout = none;
  stderr = none;
  exit_code = none;
  started_at = none;
  finished_at = none;
}

-- The rows that the statement returns are the updated ones.
unfoldable pub reset_failed_jobs : ℕ → Action (List Job)
reset_failed_jobs event_id = do
  call
  db ← get_db
  modify_db (λ d. record d { jobs = update (failed_of event_id) reset d.jobs })
  update_event_status event_id EventStatus.running
  pure (map reset (select (failed_of event_id) db.jobs))
