-- ===== src/System/Again.antt =====
-- A rerun of an event, from the request to the last of the jobs that it repeats.
use otel_forge.Prelude.{
  ℕ, ◌≡◌, ◌∙◌, refl, sym, ap, subst, inl, inr, Bool, true, false, ◌&&◌, ==_iff, List, [], ◌∷◌, map,
  map-update, All, All-map, All-after, exists, select, select-All, update, Bool-cases, length,
  arith,
}
use otel_forge.Models.{Bytes, TaskType, EventDetail, Job}
use otel_forge.Action.{Env, World, Delivery, ok}
use otel_forge.Store.Jobs.{job_has_id, of_event, failed_of, reset}
use otel_forge.Store.Rollup.Summary.{RolledUp}
use otel_forge.Queue.{consume}
use otel_forge.Service.{message_of, rerun_failed}
use otel_forge.Service.Launch.{delivery_of}
use otel_forge.Service.Rerun.{rerun_failed_resets}
use otel_forge.Runner.Conclusion.{HasEnded, Concluded}
use otel_forge.Runner.Frame.{job_key}
use otel_forge.Runner.Settled.{IsOf-jobs}
use otel_forge.Runner.Liveness.{NothingFails}
use otel_forge.Runner.Worker.{work, consume_keys}
use otel_forge.Pool.{Pool}
use otel_forge.System.{Reach}
use otel_forge.System.Owners.{owner_of}
use otel_forge.System.Reached.{owner_of-event}
use otel_forge.System.Launches.{rerun_failed-Keeps}
use otel_forge.System.Messages.{AllNamed, jobs-AllNamed}
use otel_forge.System.Sending.{rerun_failed-Tracks}
use otel_forge.System.Distinct.{AllDistinct}
use otel_forge.System.Identifiers.{rerun_failed-Separates}
use otel_forge.System.Serving.{Sound, Reach-Sound, known-IsOf}
use otel_forge.System.Completion.{Served, EndedFor, consume-serves}
use otel_forge.System.Outcome.{Ends, every, Ends-ended, Finished, Finished_lem}

rerun-Sound :
    (id owner_id : ℕ) (admin : Bool) (env : Env) (w : World)
    → Sound w
    → Sound (rerun_failed id owner_id admin env w).1
rerun-Sound id owner_id admin env w h = record {
  one_owner = ((rerun_failed-Keeps id owner_id admin).at env w).keeps h.one_owner;
  known = ((rerun_failed-Tracks id owner_id admin).at env w).tracks h.known;
  distinct = ((rerun_failed-Separates id owner_id admin).at env w).separates h.distinct;
}

-- The messages of a rerun.
abbrev sent_again : TaskType → ℕ → List Job → List Delivery
sent_again task id jobs = map (delivery_of task) (map reset (select (failed_of id) jobs))

-- A failed job of the event with the identifier.
abbrev failed_with : ℕ → ℕ → Job → Bool
failed_with id k j = failed_of id j && job_has_id k j

module _ (id : ℕ) (u : World) where
  Served-Concluded :
      (task : TaskType) (jobs : List Job)
      → All (λ (d : Delivery). Served d.body u) (map (delivery_of task) (map reset jobs))
      → All (λ j. Concluded j.id j.event_id u) jobs
  Served-Concluded task [] h = tt
  Served-Concluded task (j ∷ jobs) (h, rest) = (h, Served-Concluded task jobs rest)

  served_again :
      (k : ℕ) (jobs : List Job)
      → exists (failed_with id k) jobs ≡ true
      → All (λ j. failed_of id j ≡ true → Concluded j.id j.event_id u) jobs
      → EndedFor k u
  served_again k [] there served = cc
  served_again k (j ∷ jobs) there (h, rest) = elim (Bool-cases (failed_with id k j)) [
    | inr other ↦ served_again k jobs (ground arith) rest
    | inl this ↦
        (let same : j.id ≡ k = ground arith in
          let failed : failed_of id j ≡ true = ground arith in
          subst (λ i. EndedFor i u) same (h failed).ended)
  ]

  rolled_again :
      (jobs : List Job)
      → exists (failed_of id) jobs ≡ true
      → All (λ j. failed_of id j ≡ true → Concluded j.id j.event_id u) jobs
      → RolledUp id u.db
  rolled_again [] there served = cc
  rolled_again (j ∷ jobs) there (h, rest) = elim (Bool-cases (failed_of id j)) [
    | inr other ↦ rolled_again jobs (ground arith) rest
    | inl failed ↦
        (let mine : j.event_id ≡ id = ground arith in
          subst (λ i. RolledUp i u.db) mine (h failed).rolled)
  ]

  -- The rows with an identifier of which none is failed, are as they were.
  spared :
      (k : ℕ) (jobs : List Job)
      → exists (failed_with id k) jobs ≡ false
      → All (λ j. job_has_id k j ≡ true → HasEnded j) jobs
      → All (λ j. job_has_id k j ≡ true → HasEnded j) (update (failed_of id) reset jobs)
  spared k [] none h = tt
  spared k (j ∷ jobs) none (h, rest) = elim (Bool-cases (failed_of id j)) [
    | inr other ↦ rw other (h, spared k jobs (ground arith) rest)
    | inl failed ↦ rw failed (λ e. absurd (ground arith), spared k jobs (ground arith) rest)
  ]

  -- All rows with the identifier of a job of the event have ended, where the jobs of the event
  -- have.
  ended_with :
      (k : ℕ) (jobs : List Job)
      → All (λ j. job_has_id k j ≡ true → j.event_id ≡ id) jobs
      → All (λ j. of_event id j ≡ true → HasEnded j) jobs
      → All (λ j. job_has_id k j ≡ true → HasEnded j) jobs
  ended_with k [] mine h = tt
  ended_with k (j ∷ jobs) (m, mine) (h, rest) =
      (λ e. h ((==_iff j.event_id id).1 (m e)), ended_with k jobs mine rest)

  -- After the rerun, each job of the event is sent again or has ended.
  Ends-again :
      (task : TaskType) (all jobs : List Job)
      → AllDistinct (map job_key all)
      → AllNamed task (map job_key all) jobs
      → All (λ j. of_event id j ≡ true → HasEnded j) all
      → All (λ j. failed_of id j ≡ true → Concluded j.id j.event_id u) all
      → ((k : ℕ)
          → All (λ j. job_has_id k j ≡ true → HasEnded j) (update (failed_of id) reset all)
          → EndedFor k u)
      → All (Ends id u) (map job_key jobs)
  Ends-again task all [] distinct named ended served kept = tt
  Ends-again task all (j ∷ jobs) distinct (n, named) ended served kept = (
    elim (Bool-cases (of_event id j)) [
      | inr other ↦ every u.jobs (λ x e. absurd (cc (other, e)))
      | inl mine ↦
          (let is_it = (==_iff j.event_id id).0 mine in
            let right =
              IsOf-jobs j.id j.event_id all
                (known-IsOf (message_of task j) (map job_key all) distinct n) in
            let over : EndedFor j.id u = elim (Bool-cases (exists (failed_with id j.id) all)) [
              | inl sent ↦ served_again j.id all sent served
              | inr none ↦ kept j.id (
                  spared j.id all none (
                    ended_with j.id all
                      (subst (λ i. All (λ r. job_has_id j.id r ≡ true → r.event_id ≡ i) all) is_it
                        right)
                      ended))
            ] in
            All-map u.jobs (λ x h _. h) over)
    ],
    Ends-again task all jobs distinct named ended served kept,
  )

-- Take a state that the processes have reached from tables without jobs, empty queues and a worker
-- without deliveries, an event of it whose jobs have all ended, some of them as failed, and a
-- `RerunFailed` of the event that returns it. Where no call of the worker fails from then on, the
-- refusal of a text by a column among the failures, and the status with which a remote command
-- exits fits an INT, as many deliveries as there are messages empty the main queue, and then every job of the event has
-- ended again and its row has a final status, which with its counts is what the jobs call for.
pub rerun_event_ends :
    (concurrency : ℕ) (start s : Pool) (id owner_id : ℕ) (admin : Bool) (env : Env)
    (ev : EventDetail) (key : Bytes) (env' : Env)
    → start.world.jobs ≡ []
    → start.world.ready ≡ []
    → start.world.dead ≡ []
    → start.unsettled ≡ []
    → Reach concurrency start s
    → All (λ j. of_event id j ≡ true → HasEnded j) s.world.jobs
    → exists (failed_of id) s.world.jobs ≡ true
    → (rerun_failed id owner_id admin env s.world).0 ≡ ok ev
    → NothingFails env'
    → let v = (rerun_failed id owner_id admin env s.world).1 in
      let u = (consume (length v.ready) (work key) env' v).1 in (u.ready ≡ []) × Finished id u
rerun_event_ends c start s id owner_id admin env ev key env' no_jobs none_ready none_dead none_taken
      reached ended some_failed made nf =
    let w = s.world in
    let sound = Reach-Sound c start s no_jobs none_ready none_dead none_taken reached in
    let v = (rerun_failed id owner_id admin env w).1 in
    let done = (rerun_failed_resets id owner_id admin env w ev made).1 in
    let (empty, served, _, kept) =
      consume-serves key env' nf v.ready v refl (rerun-Sound id owner_id admin env w sound) in
    let u = (consume (length v.ready) (work key) env' v).1 in
    let same = consume_keys key (length v.ready) env' v in
    let again =
      select-All (λ j. Concluded j.id j.event_id u) (failed_of id) w.jobs
        (Served-Concluded id u ev.task_type (select (failed_of id) w.jobs) (
          All-after (λ (d : Delivery). Served d.body u) w.ready (sent_again ev.task_type id w.jobs)
            (subst (All (λ (d : Delivery). Served d.body u)) done.ready_then served))) in
    let ends : All (Ends id u) (map job_key w.jobs) =
      Ends-again id u ev.task_type w.jobs w.jobs sound.distinct (jobs-AllNamed ev.task_type w.jobs)
        ended again
        (λ k h.
          kept k (subst (All (λ j. job_has_id k j ≡ true → HasEnded j)) (sym done.jobs_then) h)) in
    let keys : map job_key u.jobs ≡ map job_key w.jobs =
      same.job_keys
      ∙ ap (map job_key) done.jobs_then
      ∙ map-update job_key (failed_of id) reset w.jobs (λ j. refl) in
    (
      empty,
      Finished_lem id u (ap (owner_of id) same.event_keys ∙ owner_of-event id v.events done.found)
          (rolled_again id u w.jobs some_failed again)
          (Ends-ended id u (subst (All (Ends id u)) (sym keys) ends)),
    )
