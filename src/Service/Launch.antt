-- ===== src/Service/Launch.antt =====
-- What `Create` leaves behind, when it returns an event and when it returns an error.
use otel_forge.Prelude.{
  ℕ, ◌≡◌, ◌∙◌, refl, sym, ap, subst, false, ==_refl, none, some, List, [], ◌∷◌, ◌++◌, map, All,
  exists, update, update-append, update-none, length, arith,
}
use mathlib.Core.List.{append-nil, append_assoc}
use otel_forge.Models.{TaskType, EventStatus, Event, EventDetail, Job}
use otel_forge.Action.{Env, World, Db, Delivery, Action, Result, ok, pure, get_env, ◌>>=◌, ◌>>◌}
use otel_forge.Action.Rules.{>>=-eq-ok}
use otel_forge.Store.Events.{event_has_id, create_event_with_jobs, update_event_status}
use otel_forge.Store.Events.Creation.{Created, create_event_with_jobs_ok}
use otel_forge.Store.Events.Insertion.{IsFresh, link_of}
use otel_forge.Queue.{publish, enqueue}
use otel_forge.Service.{CreateInput, message_of, publish_all, params_of, validate, launch, create}
use otel_forge.Service.Checks.{Checked, OnlyReads, validate_ok, validate-OnlyReads}

-- The delivery that a worker will get for a job.
abbrev pub delivery_of : TaskType → Job → Delivery
delivery_of task job = record { body = some (message_of task job); headers = none }

pub publish_ok :
    (task : TaskType) (job : Job) (env : Env) (w : World)
    → (publish (message_of task job) env w).0 ≡ ok tt
    → ((publish (message_of task job) env w).1.ready ≡ w.ready ++ delivery_of task job ∷ [])
      × ((publish (message_of task job) env w).1.db ≡ w.db)
      × ((publish (message_of task job) env w).1.dead ≡ w.dead)
unfolding publish enqueue ◌>>=◌
publish_ok task job env w h = ground arith

pub publish_all_ok :
    (task : TaskType) (jobs : List Job) (env : Env) (w : World)
    → (publish_all task jobs env w).0 ≡ ok tt
    → ((publish_all task jobs env w).1.ready ≡ w.ready ++ map (delivery_of task) jobs)
      × ((publish_all task jobs env w).1.db ≡ w.db)
      × ((publish_all task jobs env w).1.dead ≡ w.dead)
unfolding publish_all pure
publish_all_ok task [] env w h = (sym (append-nil w.ready), refl, refl)
publish_all_ok task (job ∷ jobs) env w h =
    let (_, sent, h1, e1) =
      >>=-eq-ok (publish (message_of task job)) (λ _. publish_all task jobs) env w h in
    let u = (publish (message_of task job) env w).1 in
    let (ready1, db1, dead1) = publish_ok task job env w sent in
    let (ready2, db2, dead2) = publish_all_ok task jobs env u h1 in
    rw e1 (ready2 ∙ rw ready1 (simp append_assoc), db2 ∙ db1, dead2 ∙ dead1)

-- What a successful `Create` has done.
pub record Launched (i : CreateInput) (ev : EventDetail) (w w' : World) : Type 0 where
  pub jobs : List Job
  pub owner_same : ev.owner_id ≡ i.owner_id
  pub task_same : ev.task_type ≡ i.task_type
  pub is_running : ev.status ≡ EventStatus.running
  pub id_unused : exists (event_has_id ev.id) w.events ≡ false
  pub all_counted : ev.total_jobs ≡ length i.instance_ids
  pub events_then : w'.events ≡ w.events ++ ev.event ∷ []
  pub jobs_then : w'.jobs ≡ w.jobs ++ jobs
  pub instances_same : w'.instances ≡ w.instances
  pub users_same : w'.users ≡ w.users
  pub all_fresh : All (IsFresh ev.id) jobs
  pub in_order : map (λ (j : Job). j.instance_id) jobs ≡ i.instance_ids
  pub ready_then : w'.ready ≡ w.ready ++ map (delivery_of i.task_type) jobs
  pub dead_same : w'.dead ≡ w.dead

abbrev pub set_running : Event → Event
set_running e = record e { status = EventStatus.running }

pub update_event_status_ok :
    (id : ℕ) (env : Env) (w : World)
    → (update_event_status id EventStatus.running env w).0 ≡ ok tt
    → let w' = (update_event_status id EventStatus.running env w).1 in
      (w'.db ≡ record w.db { events = update (event_has_id id) set_running w.events })
      × (w'.ready ≡ w.ready)
      × (w'.dead ≡ w.dead)
unfolding update_event_status ◌>>=◌
update_event_status_ok id env w h = ground arith

-- The new row is the one row that the update meets.
pub running_row :
    (e : Event) (events : List Event)
    → exists (event_has_id e.id) events ≡ false
    → update (event_has_id e.id) set_running (events ++ e ∷ []) ≡ events ++ set_running e ∷ []
running_row e events unused =
    update-append (event_has_id e.id) set_running events (e ∷ [])
    ∙ rw (update-none (event_has_id e.id) set_running events unused, ==_refl e.id)

-- `made` with its event as running.
abbrev pub shown_running : EventDetail → EventDetail
shown_running d = record d { event = set_running d.event }

-- `launch` after the environment is read.
abbrev pub after_checks : Env → CreateInput → Action EventDetail
after_checks env i = create_event_with_jobs (params_of env i) >>= λ made.
    update_event_status made.0.id EventStatus.running
    >> (publish_all i.task_type made.1 >> pure (shown_running made.0))

Launched_lem :
    (i : CreateInput) (env : Env) (d : EventDetail) (jobs : List Job) (w u v z : World)
    → Created (params_of env i) d jobs w u
    → v.db ≡ record u.db { events = update (event_has_id d.id) set_running u.events }
    → v.ready ≡ u.ready
    → v.dead ≡ u.dead
    → z.ready ≡ v.ready ++ map (delivery_of i.task_type) jobs
    → z.db ≡ v.db
    → z.dead ≡ v.dead
    → Launched i (shown_running d) w z
Launched_lem i env d jobs w u v z c db1 ready1 dead1 ready2 db2 dead2 =
    let db_u : v.db ≡ record w.db {
      events = update (event_has_id d.id) set_running (w.events ++ d.event ∷ []);
      event_instances = w.event_instances ++ map (link_of d.id) i.instance_ids;
      jobs = w.jobs ++ jobs;
    } =
      db1
      ∙ ap (λ (x : Db). record x { events = update (event_has_id d.id) set_running x.events })
          c.db_then in
    let db_z = db2 ∙ db_u in
    record {
      jobs = jobs;
      owner_same = c.event_new.owner_same;
      task_same = c.event_new.task_same;
      is_running = refl;
      id_unused = c.id_unused;
      all_counted = c.event_new.all_counted;
      events_then = ap (λ (x : Db). x.events) db_z ∙ running_row d.event w.events c.id_unused;
      jobs_then = ap (λ (x : Db). x.jobs) db_z;
      instances_same = ap (λ (x : Db). x.instances) db_z;
      users_same = ap (λ (x : Db). x.users) db_z;
      all_fresh = c.all_fresh;
      in_order = c.in_order;
      ready_then = ready2 ∙ rw (ready1, c.ready_same);
      dead_same = dead2 ∙ dead1 ∙ c.dead_same;
    }

after_checks_ok :
    (i : CreateInput) (env : Env) (w : World) {ev : EventDetail}
    → (after_checks env i env w).0 ≡ ok ev
    → Launched i ev w (after_checks env i env w).1
after_checks_ok i env w {ev} h =
    let p = params_of env i in
    let ((d, jobs), inserted, h1, e1) =
      >>=-eq-ok (create_event_with_jobs p)
        (λ made.
          update_event_status made.0.id EventStatus.running
          >> (publish_all i.task_type made.1 >> pure (shown_running made.0)))
        env w h in
    let u = (create_event_with_jobs p env w).1 in
    let (_, updated, h2, e2) =
      >>=-eq-ok (update_event_status d.id EventStatus.running)
        (λ _. publish_all i.task_type jobs >> pure (shown_running d)) env u h1 in
    let v = (update_event_status d.id EventStatus.running env u).1 in
    let (_, published, h3, e3) =
      >>=-eq-ok (publish_all i.task_type jobs) (λ _. pure (shown_running d)) env v h2 in
    let z = (publish_all i.task_type jobs env v).1 in
    let c = create_event_with_jobs_ok p env w inserted in
    let (db1, ready1, dead1) = update_event_status_ok d.id env u updated in
    let (ready2, db2, dead2) = publish_all_ok i.task_type jobs env v published in
    let same : shown_running d ≡ ev = unfold pure in ground arith in
    let at_end : (after_checks env i env w).1 ≡ z =
      ap (λ (o : Result EventDetail × World). o.1) (e1 ∙ e2 ∙ e3) ∙ (unfold pure in refl) in
    subst (λ x. Launched i ev w x) (sym at_end)
      (subst (λ x. Launched i x w z) same
        (Launched_lem i env d jobs w u v z c db1 ready1 dead1 ready2 db2 dead2))

launch_ok :
    (i : CreateInput) (env : Env) (w : World) {ev : EventDetail}
    → (launch i env w).0 ≡ ok ev
    → Launched i ev w (launch i env w).1
unfolding launch get_env ◌>>=◌
launch_ok i env w h = unfold ◌>>=◌ in after_checks_ok i env w h

pub Launched-OnlyReads :
    (i : CreateInput) (ev : EventDetail) (w u z : World)
    → OnlyReads w u
    → Launched i ev u z
    → Launched i ev w z
Launched-OnlyReads i ev w u z r l = record {
  jobs = l.jobs;
  owner_same = l.owner_same;
  task_same = l.task_same;
  is_running = l.is_running;
  id_unused = rw (← r.db_same) l.id_unused;
  all_counted = l.all_counted;
  events_then = l.events_then ∙ rw r.db_same;
  jobs_then = l.jobs_then ∙ rw r.db_same;
  instances_same = l.instances_same ∙ rw r.db_same;
  users_same = l.users_same ∙ rw r.db_same;
  all_fresh = l.all_fresh;
  in_order = l.in_order;
  ready_then = l.ready_then ∙ rw r.ready_same;
  dead_same = l.dead_same ∙ r.dead_same;
}

-- When `Create` returns an event, the request has passed its checks in the tables that it met:
-- there is an instance, a task that needs a configuration has one that is YAML, and every instance
-- belongs to the owner of the request. And then there is one more event, which is running, and one
-- more queued job for each instance, in order, with its message at the end of the queue.
pub create_launches :
    (i : CreateInput) (env : Env) (w : World) (ev : EventDetail)
    → (create i env w).0 ≡ ok ev
    → Checked i env w × Launched i ev w (create i env w).1
unfolding create
create_launches i env w ev h =
    let (_, checked, h1, e1) = >>=-eq-ok (validate i) (λ _. launch i) env w h in
    let u = (validate i env w).1 in
    (
      validate_ok i env w checked,
      subst (λ (o : Result EventDetail × World). Launched i ev w o.1) (sym e1)
          (Launched-OnlyReads i ev w u _ ((validate-OnlyReads i).at env w) (launch_ok i env u h1)),
    )
