-- ===== src/System/Launches.antt =====
-- The operations of the event service keep every job on an instance of the owner of its event.
use otel_forge.Prelude.{
  map-append, ℕ, ◌≡◌, ◌∙◌, refl, sym, ap, subst, inl, inr, Bool, some, List, [], ◌∷◌, ◌++◌, map,
  All, All-append, All-map,
}
use otel_forge.Models.{TaskType, EventStatus, EventDetail, Job}
use otel_forge.Action.{
  Env, World, Db, Action, Result, ok, err, Error, pure, get_env, try, require, event_not_found,
  ◌>>=◌, ◌>>◌,
}
use otel_forge.Action.Rules.{Does, Does-after, Result-cases, bind_ok}
use otel_forge.Store.Events.{create_event_with_jobs, update_event_status}
use otel_forge.Store.Jobs.{reset_failed_jobs}
use otel_forge.Store.Events.Insertion.{IsFresh}
use otel_forge.Store.Events.Creation.{Created, create_event_with_jobs_atomic}
use otel_forge.Queue.{publish, enqueue}
use otel_forge.Service.{
  CreateInput, params_of, publish_all, validate, launch, create, rerun_failed, clone,
}
use otel_forge.Service.Checks.{
  OnlyReads, OwnedBy, Checked, Checked-OnlyReads, validate_ok, validate-OnlyReads,
}
use otel_forge.Service.Rerun.{get_event-OnlyReads, user_owns_event-OnlyReads}
use otel_forge.Runner.Frame.{job_key, event_key, instance_key, modify_jobs, frame_rules}
use otel_forge.Runner.Untouched.Calls.{update_event_status-Does}
use otel_forge.System.Owners.{owner_of, OneOwner, owner_of-append, owner_of-first, owner_of-new}
use otel_forge.System.Keeping.{
  Keeps, Keeps-Frame, db-Keeps, Keeps-KeepsKeys, Keeps-OnlyReads, keeping,
}

-- The jobs of a new event, on instances of its owner.
new_jobs :
    (es : List (ℕ × ℕ)) (id owner : ℕ) (jobs : List Job) (w : World)
    → owner_of id es ≡ some owner
    → All (IsFresh id) jobs
    → All (λ iid. OwnedBy owner iid w) (map (λ (j : Job). j.instance_id) jobs)
    → All (OneOwner es (map instance_key w.instances)) (map job_key jobs)
new_jobs es id owner [] w known fresh owned = tt
new_jobs es id owner (j ∷ jobs) w known (f, fs) (o, os) = (
  record {
    owner = owner;
    of_event = rw f.event_same known;
    of_instance = owner_of-first j.instance_id w.instances o.found ∙ ap (λ x. some x) o.owned;
  },
  new_jobs es id owner jobs w known fs os,
)

OneOwner-event :
    (es is more : List (ℕ × ℕ)) (k : ℕ × ℕ × ℕ) → OneOwner es is k → OneOwner (es ++ more) is k
OneOwner-event es is more k a = record {
  owner = a.owner;
  of_event = owner_of-append k.1 es more a.of_event;
  of_instance = a.of_instance;
}

Created-Keeps :
    (i : CreateInput) (env : Env) (w w' : World) (ev : EventDetail) (jobs : List Job)
    → Checked i env w
    → Created (params_of env i) ev jobs w w'
    → Keeps w w'
Created-Keeps i env w w' ev jobs checked c = record {
  keeps = λ a.
      let is = map instance_key w.instances in
      let es = map event_key (w.events ++ ev.event ∷ []) in
      let owned =
        subst (All (λ iid. OwnedBy i.owner_id iid w)) (sym c.in_order) checked.all_owned in
      let known : owner_of ev.id es ≡ some i.owner_id =
        owner_of-new ev.id w.events ev.event c.id_unused refl
        ∙ ap (λ x. some x) c.event_new.owner_same in
      let old : All (OneOwner es is) (map job_key w.jobs) =
        rw (map-append event_key w.events (ev.event ∷ [])) (
          All-map (map job_key w.jobs)
            (OneOwner-event (map event_key w.events) is (event_key ev.event ∷ [])) a) in
      let all : All (OneOwner es is) (map job_key (w.jobs ++ jobs)) =
        rw (map-append job_key w.jobs jobs) (
          All-append (OneOwner es is) (map job_key w.jobs) (map job_key jobs) old
            (new_jobs es ev.id i.owner_id jobs w known c.all_fresh owned)) in
      rw c.db_then all;
}

enqueue-Keeps : (d : otel_forge.Action.Delivery) → Does Keeps (enqueue d)
unfolding enqueue
enqueue-Keeps d = record { at = λ env w. record { keeps = λ a. a } }

publish_all-Keeps : (task : TaskType) (jobs : List Job) → Does Keeps (publish_all task jobs)
unfolding publish_all publish
publish_all-Keeps task [] = search keeping
publish_all-Keeps task (job ∷ jobs) =
    let rest = publish_all-Keeps task jobs in search (keeping, enqueue-Keeps) depth 14

update_event_status-Keeps : (id : ℕ) (s : EventStatus) → Does Keeps (update_event_status id s)
update_event_status-Keeps id s = Keeps-KeepsKeys _ (update_event_status-Does id s)

-- What `Create` does after the checks.
launch-Keeps :
    (i : CreateInput) (env : Env) (w : World) → Checked i env w → Keeps w (launch i env w).1
unfolding launch get_env ◌>>=◌
launch-Keeps i env w checked =
    let made : Keeps w (create_event_with_jobs (params_of env i) env w).1 =
      elim (create_event_with_jobs_atomic (params_of env i) env w) [
        | inl (ev, jobs, _, c) ↦ Created-Keeps i env w _ ev jobs checked c
        | inr (e, _, same) ↦ db-Keeps w _ same
      ] in
    Does-after (create_event_with_jobs (params_of env i))
      (λ made. do
        update_event_status made.0.id EventStatus.running
        publish_all i.task_type made.1
        pure (record made.0 { event = record made.0.event { status = EventStatus.running } }))
      env w Keeps-Frame made
      (λ made. search (keeping, update_event_status-Keeps, publish_all-Keeps))

pub create-Keeps : (i : CreateInput) → Does Keeps (create i)
unfolding create
create-Keeps i = record {
  at = λ env w.
      let u = (validate i env w).1 in
      let read = (validate-OnlyReads i).at env w in
      elim (Result-cases (validate i env w).0) [
        | inl (_, passed) ↦
            let goes_on : create i env w ≡ launch i env u =
              bind_ok (validate i) (λ _. launch i) env w
                (ap (λ (r : Result (Unit {0})). (r, u)) passed) in
            let back : OnlyReads u w = record {
              db_same = sym read.db_same;
              ready_same = sym read.ready_same;
              dead_same = sym read.dead_same;
              sent_same = sym read.sent_same;
            } in
            rw goes_on (
              Keeps-Frame.then_ w u _ (db-Keeps w u read.db_same) (
                launch-Keeps i env u
                  (Checked-OnlyReads i env u w back (validate_ok i env w passed))))
        | inr (e, failed) ↦
            let stops : (create i env w).1 ≡ u = unfold ◌>>=◌ in rw failed refl in
            rw stops (db-Keeps w u read.db_same)
      ];
}

reset_failed_jobs-Keeps : (id : ℕ) → Does Keeps (reset_failed_jobs id)
reset_failed_jobs-Keeps id = Keeps-KeepsKeys _ (
    unfold reset_failed_jobs in
    search (frame_rules, modify_jobs, update_event_status-Does) depth 14)

pub rerun_failed-Keeps :
    (id owner_id : ℕ) (admin : Bool) → Does Keeps (rerun_failed id owner_id admin)
unfolding rerun_failed
rerun_failed-Keeps id owner_id admin =
    let owns = Keeps-OnlyReads _ (user_owns_event-OnlyReads owner_id id) in
    let got = Keeps-OnlyReads _ (get_event-OnlyReads id) in
    search (keeping, reset_failed_jobs-Keeps, publish_all-Keeps) depth 20

pub clone-Keeps :
    (id owner_id : ℕ) (overrides : CreateInput) → Does Keeps (clone id owner_id overrides)
unfolding clone
clone-Keeps id owner_id overrides =
    let owns = Keeps-OnlyReads _ (user_owns_event-OnlyReads owner_id id) in
    let got = Keeps-OnlyReads _ (get_event-OnlyReads id) in search (keeping, create-Keeps) depth 20
