-- ===== src/System/Sending.antt =====
-- The operations of the event service send messages of jobs that are in the tables.
use otel_forge.Prelude.{
  ℕ, ◌≡◌, ◌∙◌, refl, ap, subst, Bool, List, [], ◌∷◌, ◌++◌, map, map-append, All-map, Bool-cases,
  select, arith, inl, inr,
}
use otel_forge.Models.{TaskType, Job, EventStatus, EventDetail}
use otel_forge.Action.{Env, World, Action, ok, pure, get_env, ◌>>=◌, ◌>>◌}
use otel_forge.Action.Rules.{Does, Does-step, Does-after, does_rules}
use otel_forge.Store.Events.{create_event_with_jobs, update_event_status, get_event}
use otel_forge.Store.Events.Creation.{
  Created, create_event_with_jobs_atomic, create_event_with_jobs_ok,
}
use otel_forge.Store.Events.Quiet.{create_event_with_jobs-KeepsQueues}
use otel_forge.Store.Jobs.{reset_failed_jobs, failed_of, reset}
use otel_forge.Service.{
  CreateInput, message_of, params_of, publish_all, launch, create, rerun_failed, clone,
}
use otel_forge.Service.Checks.{OnlyReads, validate-OnlyReads}
use otel_forge.Service.Rerun.{get_event-OnlyReads, user_owns_event-OnlyReads}
use otel_forge.Runner.Frame.{KeepsKeys, job_key, modify_jobs, frame_rules}
use otel_forge.Runner.Untouched.Calls.{update_event_status-Does}
use otel_forge.System.Messages.{
  AllNamed, Tracks, Tracks-Frame, same-Tracks, more_jobs-Tracks, exists-after, jobs-AllNamed,
  publish_all-Tracks,
}

pub OnlyReads-Tracks : (u v : World) → OnlyReads u v → Tracks u v
OnlyReads-Tracks u v r = same-Tracks u v (rw r.db_same refl) r.ready_same r.dead_same

reads : {A : Type 0} (m : Action A) → Does OnlyReads m → Does Tracks m
reads m d = record { at = λ env w. OnlyReads-Tracks w (m env w).1 (d.at env w) }

KeepsKeys-Tracks : (u v : World) → KeepsKeys u v → Tracks u v
KeepsKeys-Tracks u v k = same-Tracks u v k.keys_same.job_keys k.ready_same k.dead_same

-- The publication of jobs that are there, with nothing but a result after it.
send-Tracks :
    {A : Type 0} (task : TaskType) (jobs : List Job) (a : A) (env : Env) (w : World)
    → AllNamed task (map job_key w.jobs) jobs
    → Tracks w ((publish_all task jobs >> pure a) env w).1
send-Tracks task jobs a env w named =
    Does-after (publish_all task jobs) (λ _. pure a) env w Tracks-Frame
      (publish_all-Tracks task jobs env w named)
      (λ _. let frame = Tracks-Frame in search does_rules)

Created-Tracks :
    (i : CreateInput) (env : Env) (w w' : World) (ev : EventDetail) (jobs : List Job)
    → Created (params_of env i) ev jobs w w'
    → Tracks w w' × AllNamed i.task_type (map job_key w'.jobs) jobs
Created-Tracks i env w w' ev jobs c =
    let added : w'.jobs ≡ w.jobs ++ jobs = rw c.db_then refl in
    (
      more_jobs-Tracks w w' jobs added c.ready_same c.dead_same,
      rw (ap (map job_key) added ∙ map-append job_key w.jobs jobs) (
          All-map jobs
            (λ j. exists-after (message_of i.task_type j) (map job_key w.jobs) (map job_key jobs))
            (jobs-AllNamed i.task_type jobs)),
    )

-- What is done once the event is made.
started-Tracks :
    {A : Type 0} (task : TaskType) (id : ℕ) (jobs : List Job) (a : A) (env : Env) (w : World)
    → AllNamed task (map job_key w.jobs) jobs
    → Tracks w
        ((update_event_status id EventStatus.running >> (publish_all task jobs >> pure a)) env w).1
started-Tracks task id jobs a env w named =
    let kept = (update_event_status-Does id EventStatus.running).at env w in
    Does-step (update_event_status id EventStatus.running) (λ _. publish_all task jobs >> pure a)
      env w Tracks-Frame (KeepsKeys-Tracks w _ kept)
      (λ _ _. send-Tracks task jobs a env _ (rw kept.keys_same.job_keys named))

launch-Tracks : (i : CreateInput) → Does Tracks (launch i)
unfolding launch get_env ◌>>=◌
launch-Tracks i = record {
  at = λ env w.
      let p = params_of env i in
      Does-step (create_event_with_jobs p)
        (λ made.
          update_event_status made.0.id EventStatus.running
          >> (publish_all i.task_type made.1
              >> pure
                  (record made.0 { event = record made.0.event { status = EventStatus.running } })))
        env w Tracks-Frame
        (elim (create_event_with_jobs_atomic p env w) [
          | inl (ev, jobs, _, c) ↦ (Created-Tracks i env w _ ev jobs c).0
          | inr (e, _, same) ↦
              let quiet = (create_event_with_jobs-KeepsQueues p).at env w in
              same-Tracks w _ (rw same refl) quiet.ready_same quiet.dead_same
        ])
        (λ made h.
          started-Tracks i.task_type made.0.id made.1 _ env _
            (Created-Tracks i env w _ made.0 made.1
              (create_event_with_jobs_ok p env w {ev = made.0} {jobs = made.1} h)).1);
}

pub create-Tracks : (i : CreateInput) → Does Tracks (create i)
unfolding create
create-Tracks i =
    let frame = Tracks-Frame in
    let checked = reads _ (validate-OnlyReads i) in search (does_rules, launch-Tracks) depth 9

-- The jobs that a rerun resets, are there.
reset-AllNamed :
    (task : TaskType) (id : ℕ) (keys : List (ℕ × ℕ × ℕ)) (jobs : List Job)
    → AllNamed task keys jobs
    → AllNamed task keys (map reset (select (failed_of id) jobs))
reset-AllNamed task id keys [] h = tt
reset-AllNamed task id keys (j ∷ jobs) (h, hs) = elim (Bool-cases (failed_of id j)) [
  | inl picked ↦ rw picked (h, reset-AllNamed task id keys jobs hs)
  | inr other ↦ rw other (reset-AllNamed task id keys jobs hs)
]

pub reset_failed_jobs-KeepsKeys : (id : ℕ) → Does KeepsKeys (reset_failed_jobs id)
unfolding reset_failed_jobs
reset_failed_jobs-KeepsKeys id =
    search (frame_rules, modify_jobs, update_event_status-Does) depth 14

reset_failed_jobs_ok :
    (id : ℕ) (env : Env) (w : World) {jobs : List Job}
    → (reset_failed_jobs id env w).0 ≡ ok jobs
    → map reset (select (failed_of id) w.jobs) ≡ jobs
unfolding reset_failed_jobs ◌>>=◌
reset_failed_jobs_ok id env w h = ground arith

rerun-Tracks :
    (id : ℕ)
    → Does Tracks (
        reset_failed_jobs id >>= λ jobs.
        get_event id >>= λ ev. publish_all ev.task_type jobs >> pure ev)
rerun-Tracks id = record {
  at = λ env w.
      let kept = (reset_failed_jobs-KeepsKeys id).at env w in
      Does-step (reset_failed_jobs id)
        (λ jobs. get_event id >>= λ ev. publish_all ev.task_type jobs >> pure ev) env w Tracks-Frame
        (KeepsKeys-Tracks w _ kept)
        (λ jobs h.
          let u = (reset_failed_jobs id env w).1 in
          let read = (get_event-OnlyReads id).at env u in
          Does-step (get_event id) (λ ev. publish_all ev.task_type jobs >> pure ev) env u
            Tracks-Frame (OnlyReads-Tracks u _ read)
            (λ ev _. send-Tracks ev.task_type jobs ev env _ (
              rw (read.db_same, kept.keys_same.job_keys)
                (subst (AllNamed ev.task_type (map job_key w.jobs))
                  (reset_failed_jobs_ok id env w h)
                  (reset-AllNamed ev.task_type id (map job_key w.jobs) w.jobs
                    (jobs-AllNamed ev.task_type w.jobs))))));
}

pub rerun_failed-Tracks :
    (id owner_id : ℕ) (admin : Bool) → Does Tracks (rerun_failed id owner_id admin)
unfolding rerun_failed
rerun_failed-Tracks id owner_id admin =
    let frame = Tracks-Frame in
    let owns = reads _ (user_owns_event-OnlyReads owner_id id) in
    search (does_rules, rerun-Tracks) depth 14

pub clone-Tracks :
    (id owner_id : ℕ) (overrides : CreateInput) → Does Tracks (clone id owner_id overrides)
unfolding clone
clone-Tracks id owner_id overrides =
    let frame = Tracks-Frame in
    let owns = reads _ (user_owns_event-OnlyReads owner_id id) in
    let got = reads _ (get_event-OnlyReads id) in search (does_rules, create-Tracks) depth 20
