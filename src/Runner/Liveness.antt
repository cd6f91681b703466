-- ===== src/Runner/Liveness.antt =====
-- Where no call fails `Handle` returns nil, at every answer of the node whose status fits its column.
use otel_forge.Prelude.{
  ℕ, ◌+◌, String, ◌≡◌, ◌∙◌, refl, arith, ap, true, ltb, ◌^◌, Option, none, some, [], first, map,
  select, ◌==◌,
}
use otel_forge.Models.{Bytes, JobStatus, Job, Event, EventDetail, Instance}
use otel_forge.Action.{
  Env, World, Action, Result, Error, ok, err, SessionEnd, no_session, exited, broken, ◌>>=◌, pure,
  try, tick, get_env,
}
use otel_forge.Action.Rules.{
  NoFault, Succeeds, Succeeds-after, Yields, Yields-bind, succeeds_rules, bind_ok,
}
use otel_forge.Store.Instances.{has_id, get_instance}
use otel_forge.Store.Events.{event_has_id, get_event}
use otel_forge.Store.Jobs.{job_has_id, get_job, update_job_running, update_job_result}
use otel_forge.Store.Rollup.{write_rollup, rollup_event}
use otel_forge.Ssh.Client.{
  Config, Run, run_of, connect, script_command, run_script, run_script_on, run_session, send,
  send_if_open,
}
use otel_forge.Runner.{
  conclude, fail_job, fail, or_fail, record_run, execute, after_test, reach_node, run_job,
  begin_job, work_on, handle,
}

-- An INT column takes the code.
abbrev CodeFits : ℕ → Type 0
CodeFits code = ltb code (2 ^ 31) ≡ true

abbrev StatusFits : SessionEnd → Type 0
StatusFits (exited _ _ code) = CodeFits code
StatusFits _ = Unit

-- No call fails, and the status with which a remote command exits fits an INT column.
pub record NothingFails (env : Env) : Type 0 where
  pub none_fails : NoFault env
  pub statuses_fit : (n : ℕ) (command : String) → StatusFits (env.session n command)

module _ (env : Env) (well : NothingFails env) where
  nf : NoFault env
  nf = well.none_fails

  conclude-Succeeds :
      (job_id event_id : ℕ) (s : JobStatus) (out errors : String) (code : ℕ)
      → CodeFits code
      → Succeeds env (conclude job_id event_id s out errors code)
  unfolding conclude update_job_result rollup_event write_rollup
  conclude-Succeeds job_id event_id s out errors code fits =
      search (succeeds_rules, nf, fits) depth 20

  fail-Succeeds :
      (job_id event_id : ℕ) (step : String) (e : Error) → Succeeds env (fail job_id event_id step e)
  unfolding fail fail_job
  fail-Succeeds job_id event_id step e = conclude-Succeeds _ _ _ _ _ _ refl

  or_fail-Succeeds :
      {A : Type 0} (job_id event_id : ℕ) (step : String) (r : Result A) (k : A → Action (Unit {0}))
      → ((a : A) → Succeeds env (k a))
      → Succeeds env (or_fail job_id event_id step r k)
  unfolding or_fail
  or_fail-Succeeds job_id event_id step (ok a) k sk = sk a
  or_fail-Succeeds job_id event_id step (err e) k sk = fail-Succeeds _ _ _ _

  record_run-Succeeds :
      (job_id event_id : ℕ) (run : Run) (e : Option Error)
      → CodeFits run.exit_code
      → Succeeds env (record_run job_id event_id run e)
  unfolding record_run fail_job
  record_run-Succeeds job_id event_id run (some e) fits = conclude-Succeeds _ _ _ _ _ _ refl
  record_run-Succeeds job_id event_id run none fits =
      search (succeeds_rules, conclude-Succeeds, fits)

  send_if_open-Succeeds : (c : String) (s : SessionEnd) → Succeeds env (send_if_open c s)
  unfolding send
  send_if_open-Succeeds c (no_session _) = search succeeds_rules
  send_if_open-Succeeds c (exited _ _ _) = record { at = λ w. (tt, refl) }
  send_if_open-Succeeds c (broken _ _ _) = record { at = λ w. (tt, refl) }

  run_of-fits : (s : SessionEnd) → StatusFits s → CodeFits (run_of s).exit_code
  run_of-fits (no_session _) h = refl
  run_of-fits (exited _ _ _) h = h
  run_of-fits (broken _ _ _) h = refl

  -- The run returns with a code that fits.
  run_session-fits : (c : String) → Yields env (λ run. CodeFits run.exit_code) (run_session c)
  unfolding run_session ◌>>=◌
  run_session-fits c = record {
    at = λ w.
        let s = env.session w.calls c in
        let (_, e) = (send_if_open-Succeeds c s).at (record w { calls = w.calls + 1 }) in
        (run_of s, rw e refl, run_of-fits s (well.statuses_fit w.calls c));
  }

  returned : {A : Type 0} (m : Action A) → Succeeds env m → Yields env (λ _. Unit {0}) m
  returned m sm = record { at = λ w. let (a, e) = sm.at w in (a, e, tt) }

  run_script_on-fits :
      (r : Result (Unit {0})) (s : String) (c : Option String)
      → Yields env (λ run. CodeFits run.exit_code) (run_script_on r s c)
  unfolding run_script_on
  run_script_on-fits (ok _) s c =
      Yields-bind tick _ _ (returned tick (search succeeds_rules)) (λ n _.
        Yields-bind get_env _ _ (returned get_env (search succeeds_rules))
          (λ e _. run_session-fits (script_command e (e.now n) s c)))
  run_script_on-fits (err e) s c = unfold pure in record { at = λ w. (_, refl, refl) }

  run_and_record-Succeeds :
      (job_id event_id : ℕ) (cfg : Config) (s : String) (c : Option String)
      → Succeeds env (run_script cfg s c >>= λ run. record_run job_id event_id run run.error)
  unfolding run_script
  run_and_record-Succeeds job_id event_id cfg s c =
      Succeeds-after (run_script cfg s c) _
        (Yields-bind (try (connect cfg)) _ _ (returned (try (connect cfg)) (search succeeds_rules))
          (λ r _. run_script_on-fits r s c))
        (λ run fits. record_run-Succeeds job_id event_id run run.error fits)

  execute-Succeeds :
      (job_id : ℕ) (ev : EventDetail) (inst : Instance) (cfg : Config)
      → Succeeds env (execute job_id ev inst cfg)
  unfolding execute
  execute-Succeeds job_id ev inst cfg =
      search (succeeds_rules, or_fail-Succeeds, run_and_record-Succeeds) depth 14

  after_test-Succeeds :
      (job_id : ℕ) (ev : EventDetail) (inst : Instance) (cfg : Config) (r : Result (Unit {0}))
      → Succeeds env (after_test job_id ev inst cfg r)
  unfolding after_test fail_job
  after_test-Succeeds job_id ev inst cfg (ok _) = execute-Succeeds job_id ev inst cfg
  after_test-Succeeds job_id ev inst cfg (err e) =
      let fits : CodeFits 1 = refl in search (succeeds_rules, conclude-Succeeds, fits) depth 9

  run_job-Succeeds :
      (job_id : ℕ) (ev : EventDetail) (inst : Instance) (cfg : Config)
      → Succeeds env (run_job job_id ev inst cfg)
  unfolding run_job reach_node
  run_job-Succeeds job_id ev inst cfg =
      search (succeeds_rules, fail-Succeeds, after_test-Succeeds) depth 12

  begin_job-Succeeds :
      (key : Bytes) (job_id : ℕ) (ev : EventDetail) (inst : Instance)
      → Succeeds env (begin_job key job_id ev inst)
  unfolding begin_job update_job_running
  begin_job-Succeeds key job_id ev inst =
      search (succeeds_rules, nf, or_fail-Succeeds, run_job-Succeeds) depth 20

  get_job_found :
      (id : ℕ) (w : World) {job : Job}
      → first (job_has_id id) w.jobs ≡ some job
      → get_job id env w ≡ (ok job, record w { calls = w.calls + 1 })
  unfolding get_job ◌>>=◌
  get_job_found id w h = ground (arith, nf w.calls)

  get_instance_found :
      (id : ℕ) (w : World) {i : Instance}
      → first (has_id id) w.instances ≡ some i
      → get_instance id env w ≡ (ok i, record w { calls = w.calls + 1 })
  unfolding get_instance ◌>>=◌
  get_instance_found id w h = ground (arith, nf w.calls)

  get_event_found :
      (id : ℕ) (w : World) {ev : Event}
      → first (event_has_id id) w.events ≡ some ev
      → (found : EventDetail) × (get_event id env w
          ≡ (ok found, record w { calls = w.calls + 1 + 1 }))
  unfolding get_event ◌>>=◌
  get_event_found id w {ev} h = (
    record {
      event = ev;
      instance_ids = map (λ (r : ℕ × ℕ). r.1) (select (λ (r : ℕ × ℕ). r.0 == id) w.event_instances);
      jobs = [];
    },
    ground (arith, nf w.calls, nf (w.calls + 1)),
  )

  -- Where no call fails, the refusal of a text by a column among the failures, the status with
  -- which a remote command exits fits an INT, and the job, its event and its instance are there,
  -- `Handle` returns nil: no node that cannot be reached or shows another key, no session that
  -- breaks, no script that exits with such a status and no lack of credentials makes it fail.
  pub handle_returns :
      (key : Bytes) (job_id : ℕ) (w : World) {job : Job} {ev : Event} {inst : Instance}
      → first (job_has_id job_id) w.jobs ≡ some job
      → first (event_has_id job.event_id) w.events ≡ some ev
      → first (has_id job.instance_id) w.instances ≡ some inst
      → (handle key job_id env w).0 ≡ ok tt
  unfolding handle work_on
  handle_returns key job_id w {job} {ev} {inst} hj he hi =
      let w1 = record w { calls = w.calls + 1 } in
      let (found, e2) = get_event_found job.event_id w1 he in
      let w3 = record w { calls = w.calls + 1 + 1 + 1 } in
      let e1 =
        bind_ok (get_job job_id) (λ j. get_event j.event_id >>= work_on key job_id j) env w
          (get_job_found job_id w hj) in
      let e3 = bind_ok (get_event job.event_id) (work_on key job_id job) env w1 e2 in
      let e4 =
        bind_ok (get_instance job.instance_id) (begin_job key job_id found) env w3
          (get_instance_found job.instance_id w3 hi) in
      let (_, e5) =
        (begin_job-Succeeds key job_id found inst).at
          (record w { calls = w.calls + 1 + 1 + 1 + 1 }) in
      ap (λ (o : Result (Unit {0}) × World). o.0) (e1 ∙ e3 ∙ e4) ∙ e5
