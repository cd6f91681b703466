-- ===== src/Runner/Conclusion.antt =====
-- Where `Handle` returns nil its job has ended, and the event's row says so.
use otel_forge.Prelude.{
  ℕ, String, ◌≡◌, ◌≢◌, refl, ◌⊎◌, inl, inr, ◌==◌, ==_iff, true, Option, none, some, All, All-update,
  Option-cases, Bool-cases, ltb, ◌^◌, arith, subst, sym, first, first-holds, if◌then◌else◌,
}
use otel_forge.Models.{Bytes, JobStatus, Job, EventDetail, Instance}
use otel_forge.Action.{Env, World, Action, Result, Error, ok, err, ◌>>=◌}
use otel_forge.Action.Rules.{Ensures, Ensures-bind, ensures_rules, >>=-eq-ok}
use otel_forge.Store.Events.{event_has_id, get_event}
use otel_forge.Store.Jobs.{job_has_id, get_job, update_job_result}
use otel_forge.Store.Rollup.{rollup_event}
use otel_forge.Store.Rollup.Summary.{RolledUp, rollup_event-RolledUp}
use otel_forge.Ssh.Client.{Config, Run}
use otel_forge.Runner.{
  conclude, fail_job, fail, or_fail, record_run, execute, after_test, reach_node, run_job,
  begin_job, work_on,
}

-- A job that has ended: verified with exit code 0, or failed with another.
abbrev pub HasEnded : Job → Type 0
HasEnded j =
    ((j.status ≡ JobStatus.verified) × (j.exit_code ≡ some 0))
    ⊎ ((j.status ≡ JobStatus.failed) × ((n : ℕ) × (j.exit_code ≡ some n) × (n ≢ 0)))

-- The job has ended, and the event's row counts it.
pub record Concluded (job_id event_id : ℕ) (w : World) : Type 0 where
  pub ended : All (λ j. job_has_id job_id j ≡ true → HasEnded j) w.jobs
  pub rolled : RolledUp event_id w.db

-- The status and the code that `UpdateJobResult` is given.
abbrev Agree : JobStatus → ℕ → Type 0
Agree s code = ((s ≡ JobStatus.verified) × (code ≡ 0)) ⊎ ((s ≡ JobStatus.failed) × (code ≢ 0))

module _ (job_id event_id : ℕ) where
  update_job_result_ended :
      (s : JobStatus) (out errors : String) (code : ℕ) (env : Env) (w : World)
      → Agree s code
      → (update_job_result job_id s out errors code env w).0 ≡ ok tt
      → All
          (λ j. job_has_id job_id j ≡ true → HasEnded j)
          (update_job_result job_id s out errors code env w).1.jobs
  unfolding update_job_result ◌>>=◌
  update_job_result_ended s out errors code env w agree h =
      elim (Option-cases (env.fault w.calls)) [
        | inl fine ↦ elim (Bool-cases (ltb code (2 ^ 31))) [
          | inl fits ↦
              rw (fine, fits)
                (All-update _ (job_has_id job_id) _ w.jobs (λ j e _. ground arith) (λ j e k. cc))
          | inr beyond ↦ ground arith
        ]
        | inr (x, failed) ↦ ground arith
      ]

  conclude-Ensures :
      (s : JobStatus) (out errors : String) (code : ℕ)
      → Agree s code
      → Ensures (Concluded job_id event_id) (conclude job_id event_id s out errors code)
  unfolding conclude
  conclude-Ensures s out errors code agree = record {
    at = λ env w {a} h.
        let (_, first_ok, second_ok, whole) =
          >>=-eq-ok (update_job_result job_id s out errors code) (λ _. rollup_event event_id) env w
            h in
        let u = (update_job_result job_id s out errors code env w).1 in
        let (same, rolled) = rollup_event-RolledUp event_id env u (rw second_ok) in
        subst (λ (o : Result (Unit {0}) × World). Concluded job_id event_id o.1) (sym whole)
          (record {
            ended = rw same (update_job_result_ended s out errors code env w agree (rw first_ok));
            rolled = rolled;
          });
  }

  fail_job-Ensures :
      (out errors : String)
      → Ensures (Concluded job_id event_id) (fail_job job_id event_id out errors 1)
  unfolding fail_job
  fail_job-Ensures out errors =
      conclude-Ensures JobStatus.failed out errors 1 (inr (refl, omega arith))

  fail-Ensures :
      (step : String) (e : Error)
      → Ensures (Concluded job_id event_id) (fail job_id event_id step e)
  unfolding fail
  fail-Ensures step e = fail_job-Ensures _ _

  or_fail-Ensures :
      {A : Type 0} (step : String) (r : Result A) (k : A → Action (Unit {0}))
      → ((a : A) → Ensures (Concluded job_id event_id) (k a))
      → Ensures (Concluded job_id event_id) (or_fail job_id event_id step r k)
  unfolding or_fail
  or_fail-Ensures step (ok a) k ek = ek a
  or_fail-Ensures step (err e) k ek = fail-Ensures step e

  status_of-Agree :
      (code : ℕ) → Agree (if code == 0 then JobStatus.verified else JobStatus.failed) code
  status_of-Agree code = ground arith

  record_run-Ensures :
      (run : Run) (e : Option Error)
      → Ensures (Concluded job_id event_id) (record_run job_id event_id run e)
  unfolding record_run
  record_run-Ensures run (some e) = fail_job-Ensures _ _
  record_run-Ensures run none =
      Ensures-bind _ _ (λ _. conclude-Ensures _ _ _ _ (status_of-Agree run.exit_code))

ruleset ending_rules =
    (ensures_rules, fail_job-Ensures, fail-Ensures, or_fail-Ensures, record_run-Ensures)

execute-Ensures :
    (job_id : ℕ) (ev : EventDetail) (inst : Instance) (cfg : Config)
    → Ensures (Concluded job_id ev.id) (execute job_id ev inst cfg)
unfolding execute
execute-Ensures job_id ev inst cfg = search ending_rules depth 12

after_test-Ensures :
    (job_id : ℕ) (ev : EventDetail) (inst : Instance) (cfg : Config) (r : Result (Unit {0}))
    → Ensures (Concluded job_id ev.id) (after_test job_id ev inst cfg r)
unfolding after_test
after_test-Ensures job_id ev inst cfg (ok _) = execute-Ensures job_id ev inst cfg
after_test-Ensures job_id ev inst cfg (err e) = search ending_rules

run_job-Ensures :
    (job_id : ℕ) (ev : EventDetail) (inst : Instance) (cfg : Config)
    → Ensures (Concluded job_id ev.id) (run_job job_id ev inst cfg)
unfolding run_job reach_node
run_job-Ensures job_id ev inst cfg = search (ending_rules, after_test-Ensures)

pub work_on-Ensures :
    (key : Bytes) (job_id : ℕ) (job : Job) (ev : EventDetail)
    → Ensures (Concluded job_id ev.id) (work_on key job_id job ev)
unfolding work_on begin_job
work_on-Ensures key job_id job ev = search (ending_rules, run_job-Ensures) depth 20

pub get_event-id :
    (id : ℕ) (env : Env) (w : World) {ev : EventDetail}
    → (get_event id env w).0 ≡ ok ev
    → ev.id ≡ id
unfolding get_event ◌>>=◌
get_event-id id env w {ev} h =
    (==_iff ev.id id).0 (first-holds (event_has_id id) w.events {a = ev.event} (ground arith))

pub get_job-first :
    (id : ℕ) (env : Env) (w : World) {job : Job}
    → (get_job id env w).0 ≡ ok job
    → first (job_has_id id) w.jobs ≡ some job
unfolding get_job ◌>>=◌
get_job-first id env w h = ground arith
