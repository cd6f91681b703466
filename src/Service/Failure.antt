-- ===== src/Service/Failure.antt =====
-- What `Create` leaves behind where it returns an error.
use otel_forge.Prelude.{
  ℕ, zero, suc, ◌≡◌, ◌∙◌, refl, sym, ap, ◌⊎◌, inl, inr, List, [], ◌∷◌, ◌++◌, map, All, take, update,
  length, is_empty, true, false, ◌<◌, arith,
}
use mathlib.Core.List.{append-nil, append_assoc}
use otel_forge.Models.{TaskType, EventStatus, Event, EventDetail, Job}
use otel_forge.Action.{Env, World, Db, Action, Error, err, pure, get_env, ◌>>=◌, ◌>>◌}
use otel_forge.Action.Rules.{>>=-eq-err}
use otel_forge.Store.Events.{event_has_id, create_event_with_jobs, update_event_status}
use otel_forge.Store.Events.Insertion.{IsFresh}
use otel_forge.Store.Events.Creation.{create_event_with_jobs_ok, create_event_with_jobs_err}
use otel_forge.Queue.{publish, enqueue}
use otel_forge.Store.Events.Quiet.{create_event_with_jobs-KeepsQueues}
use otel_forge.Service.{CreateInput, message_of, params_of, publish_all, validate, launch, create}
use otel_forge.Service.Checks.{validate_ok, validate-OnlyReads}
use otel_forge.Service.Launch.{
  delivery_of, set_running, running_row, publish_ok, update_event_status_ok, shown_running,
  after_checks,
}

update_event_status_err :
    (id : ℕ) (env : Env) (w : World) {e : Error}
    → (update_event_status id EventStatus.running env w).0 ≡ err e
    → let w' = (update_event_status id EventStatus.running env w).1 in
      (w'.db ≡ w.db) × (w'.ready ≡ w.ready)
unfolding update_event_status ◌>>=◌
update_event_status_err id env w h = ground arith

publish_err :
    (task : TaskType) (job : Job) (env : Env) (w : World) {e : Error}
    → (publish (message_of task job) env w).0 ≡ err e
    → let w' = (publish (message_of task job) env w).1 in (w'.db ≡ w.db) × (w'.ready ≡ w.ready)
unfolding publish enqueue ◌>>=◌
publish_err task job env w h = ground arith

-- Where the loop stops, the messages of the first jobs are out and no others.
pub publish_all_err :
    (task : TaskType) (jobs : List Job) (env : Env) (w : World) {e : Error}
    → (publish_all task jobs env w).0 ≡ err e
    → let w' = (publish_all task jobs env w).1 in
      (k : ℕ) × (k < length jobs)
      × (w'.ready ≡ w.ready ++ take k (map (delivery_of task) jobs))
      × (w'.db ≡ w.db)
unfolding publish_all pure
publish_all_err task [] env w h = cc
publish_all_err task (job ∷ jobs) env w {e} h =
    elim (>>=-eq-err (publish (message_of task job)) (λ _. publish_all task jobs) env w h) [
      | inl (failed, same) ↦
          let (db1, ready1) = publish_err task job env w failed in
          (zero, omega arith, rw same (ready1 ∙ sym (append-nil w.ready)), rw same db1)
      | inr (_, sent, h1, same) ↦
          let u = (publish (message_of task job) env w).1 in
          let (ready1, db1, _) = publish_ok task job env w sent in
          let (k, fewer, ready2, db2) = publish_all_err task jobs env u h1 in
          (
            suc k,
            omega (arith, fewer),
            rw same (ready2 ∙ rw ready1 (simp append_assoc)),
            rw same (db2 ∙ db1),
          )
    ]

-- An event and its jobs that stay in the tables, with the messages of the first jobs only.
pub record Abandoned (i : CreateInput) (w w' : World) : Type 0 where
  pub event : Event
  pub jobs : List Job
  pub published : ℕ
  pub incomplete : published < length jobs
  pub events_then : w'.events ≡ w.events ++ event ∷ []
  pub jobs_then : w'.jobs ≡ w.jobs ++ jobs
  pub all_fresh : All (IsFresh event.id) jobs
  pub in_order : map (λ (j : Job). j.instance_id) jobs ≡ i.instance_ids
  pub ready_then : w'.ready ≡ w.ready ++ take published (map (delivery_of i.task_type) jobs)

abbrev NothingDone : World → World → Type 0
NothingDone w w' = (w'.db ≡ w.db) × (w'.ready ≡ w.ready)

abbrev status_and_messages : CreateInput → EventDetail → List Job → Action EventDetail
status_and_messages i d jobs =
    update_event_status d.id EventStatus.running
    >> (publish_all i.task_type jobs >> pure (shown_running d))

abbrev with_new : Event → List Job → List (ℕ × ℕ) → Db → Db
with_new event jobs links db = record db {
  events = db.events ++ event ∷ [];
  event_instances = links;
  jobs = db.jobs ++ jobs;
}

-- Once the event is stored: no message is out, or those of the first jobs.
publishing_err :
    (i : CreateInput) (d : EventDetail) (jobs : List Job) (env : Env) (w : World) {e : Error}
    → (status_and_messages i d jobs env w).0 ≡ err e
    → let w' = (status_and_messages i d jobs env w).1 in
      ((w'.db ≡ w.db) × (w'.ready ≡ w.ready))
      ⊎ ((k : ℕ) × (k < length jobs)
          × (w'.db ≡ record w.db { events = update (event_has_id d.id) set_running w.events })
          × (w'.ready ≡ w.ready ++ take k (map (delivery_of i.task_type) jobs)))
publishing_err i d jobs env w {e} h =
    elim (>>=-eq-err (update_event_status d.id EventStatus.running)
      (λ _. publish_all i.task_type jobs >> pure (shown_running d)) env w h) [
        | inl (failed, same) ↦
            let (db1, ready1) = update_event_status_err d.id env w failed in
            inl (rw same db1, rw same ready1)
        | inr (_, updated, h1, same) ↦
            let u = (update_event_status d.id EventStatus.running env w).1 in
            let (db1, ready1, _) = update_event_status_ok d.id env w updated in
            elim (>>=-eq-err (publish_all i.task_type jobs) (λ _. pure (shown_running d)) env u
              h1) [
                | inl (stopped, same2) ↦
                    let (k, fewer, ready2, db2) = publish_all_err i.task_type jobs env u stopped in
                    inr (
                      k,
                      fewer,
                      rw (same, same2) (db2 ∙ db1),
                      rw (same, same2) (ready2 ∙ rw ready1 refl),
                    )
                | inr (_, sent, h2, same2) ↦ unfold pure in cc
              ]
      ]

some_job :
    (jobs : List Job) (iids : List ℕ)
    → map (λ (j : Job). j.instance_id) jobs ≡ iids
    → is_empty iids ≡ false
    → 0 < length jobs
some_job [] iids same given = let e : true ≡ false = ap is_empty same ∙ given in cc
some_job (j ∷ js) iids same given = omega arith

after_checks_err :
    (i : CreateInput) (env : Env) (w : World) {e : Error}
    → is_empty i.instance_ids ≡ false
    → (after_checks env i env w).0 ≡ err e
    → let w' = (after_checks env i env w).1 in NothingDone w w' ⊎ Abandoned i w w'
after_checks_err i env w {e} given h =
    let p = params_of env i in
    let quiet = (create_event_with_jobs-KeepsQueues p).at env w in
    elim (>>=-eq-err (create_event_with_jobs p) (λ made. status_and_messages i made.0 made.1) env w
      h) [
        | inl (failed, same) ↦
            inl (rw same (create_event_with_jobs_err p env w failed), rw same quiet.ready_same)
        | inr ((d, jobs), inserted, h1, same) ↦
            let u = (create_event_with_jobs p env w).1 in
            let c = create_event_with_jobs_ok p env w inserted in
            elim (publishing_err i d jobs env u h1) [
              | inl (db1, ready1) ↦ inr (record {
                event = d.event;
                jobs = jobs;
                published = zero;
                incomplete = some_job jobs i.instance_ids c.in_order given;
                events_then = rw (same, db1, c.db_then) refl;
                jobs_then = rw (same, db1, c.db_then) refl;
                all_fresh = c.all_fresh;
                in_order = c.in_order;
                ready_then = rw (same, ready1, c.ready_same) (sym (append-nil w.ready));
              })
              | inr (k, fewer, db1, ready1) ↦ inr (record {
                event = set_running d.event;
                jobs = jobs;
                published = k;
                incomplete = fewer;
                events_then = rw (same, db1, c.db_then) (running_row d.event w.events c.id_unused);
                jobs_then = rw (same, db1, c.db_then) refl;
                all_fresh = c.all_fresh;
                in_order = c.in_order;
                ready_then = rw (same, ready1, c.ready_same) refl;
              })
            ]
      ]

launch_err :
    (i : CreateInput) (env : Env) (w : World) {e : Error}
    → is_empty i.instance_ids ≡ false
    → (launch i env w).0 ≡ err e
    → let w' = (launch i env w).1 in NothingDone w w' ⊎ Abandoned i w w'
unfolding launch get_env ◌>>=◌
launch_err i env w given h = unfold ◌>>=◌ in after_checks_err i env w given h

-- When `Create` returns an error, either the tables and the queue are as they were, or the event
-- and all its queued jobs have stayed in the tables and the queue has got the messages of the first
-- jobs, in order, possibly of none, and not of the last.
pub create_err :
    (i : CreateInput) (env : Env) (w : World) (e : Error)
    → (create i env w).0 ≡ err e
    → let w' = (create i env w).1 in ((w'.db ≡ w.db) × (w'.ready ≡ w.ready)) ⊎ Abandoned i w w'
unfolding create
create_err i env w e h =
    let read = (validate-OnlyReads i).at env w in
    elim (>>=-eq-err (validate i) (λ _. launch i) env w h) [
      | inl (refused, same) ↦ inl (rw same read.db_same, rw same read.ready_same)
      | inr (_, checked, h1, same) ↦
          elim (launch_err i env (validate i env w).1 (validate_ok i env w checked).some_instance
            h1) [
              | inl (db1, ready1) ↦
                  inl (rw same (db1 ∙ read.db_same), rw same (ready1 ∙ read.ready_same))
              | inr a ↦ inr (record {
                event = a.event;
                jobs = a.jobs;
                published = a.published;
                incomplete = a.incomplete;
                events_then = rw same (a.events_then ∙ rw read.db_same refl);
                jobs_then = rw same (a.jobs_then ∙ rw read.db_same refl);
                all_fresh = a.all_fresh;
                in_order = a.in_order;
                ready_then = rw same (a.ready_then ∙ rw read.ready_same refl);
              })
            ]
    ]
