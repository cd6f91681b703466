-- ===== src/Store/Events.antt =====
-- internal/db/store.go: the events, and the transaction that creates one with its jobs.
pub mod Query
pub mod Filter
pub mod Insertion
pub mod Creation
pub mod Quiet
use otel_forge.Prelude.{
  ℕ, String, Bool, not, ◌&&◌, ◌||◌, Option, none, some, List, [], ◌∷◌, ◌++◌, ◌==◌, map, length,
  exists, first, select, update,
}
use otel_forge.Models.{User, TaskType, EventStatus, JobStatus, Instance, Event, EventDetail, Job}
use otel_forge.Action.{
  Db, Action, pure, lift, or_raise, ◌>>=◌, ◌>>◌, get_db, get_env, modify_db, call, require,
  rolled_back, no_rows, duplicate_key, foreign_key,
}

pub record CreateEventParams : Type 0 where
  pub owner_id : ℕ
  pub name : String
  pub launcher_name : String
  pub launcher_email : String
  pub task_type : TaskType
  pub config_content : Option String
  pub config_checksum : Option String
  pub related_event_id : Option ℕ
  pub rollback_scope : Option String
  pub instance_ids : List ℕ

abbrev pub event_has_id : ℕ → Event → Bool
event_has_id id e = e.id == id

abbrev known_event : Option ℕ → List Event → Bool
known_event none events = Bool.true
known_event (some id) events = exists (event_has_id id) events

-- INSERT INTO events: `owner_id` and `related_event_id` are references.
unfoldable pub insert_event : CreateEventParams → Action Event
insert_event p = do
  n ← call
  env ← get_env
  db ← get_db
  let ev : Event = record {
    id = env.fresh n;
    owner_id = p.owner_id;
    name = p.name;
    launcher_name = p.launcher_name;
    launcher_email = p.launcher_email;
    task_type = p.task_type;
    config_content = p.config_content;
    config_checksum = p.config_checksum;
    status = EventStatus.queued;
    related_event_id = p.related_event_id;
    rollback_scope = p.rollback_scope;
    total_jobs = length p.instance_ids;
    verified_count = 0;
    failed_count = 0;
    created_at = env.now n;
  }
  require (exists (λ (u : User). u.id == p.owner_id) db.users) foreign_key
  require (known_event p.related_event_id db.events) foreign_key
  require (not (exists (event_has_id ev.id) db.events)) duplicate_key
  modify_db (λ d. record d { events = d.events ++ ev ∷ [] })
  pure ev

-- INSERT INTO event_instances: the pair is the primary key.
unfoldable pub link_instance : ℕ → ℕ → Action (Unit {0})
link_instance event_id iid = do
  call
  db ← get_db
  require (exists (λ (i : Instance). i.id == iid) db.instances) foreign_key
  require (not (exists (λ (r : ℕ × ℕ). r.0 == event_id && r.1 == iid) db.event_instances))
      duplicate_key
  modify_db (λ d. record d { event_instances = d.event_instances ++ (event_id, iid) ∷ [] })

-- INSERT INTO jobs
unfoldable pub insert_job : ℕ → ℕ → Action Job
insert_job event_id iid = do
  n ← call
  env ← get_env
  db ← get_db
  let job : Job = record {
    id = env.fresh n;
    event_id = event_id;
    instance_id = iid;
    status = JobStatus.queued;
    stdout = none;
    stderr = none;
    exit_code = none;
    started_at = none;
    finished_at = none;
  }
  require (exists (event_has_id event_id) db.events) foreign_key
  require (exists (λ (i : Instance). i.id == iid) db.instances) foreign_key
  require (not (exists (λ (j : Job). j.id == job.id) db.jobs)) duplicate_key
  modify_db (λ d. record d { jobs = d.jobs ++ job ∷ [] })
  pure job

-- The loop over `p.InstanceIDs`.
unfoldable pub insert_jobs : ℕ → List ℕ → Action (List Job)
insert_jobs event_id [] = pure []
insert_jobs event_id (iid ∷ iids) = do
  link_instance event_id iid
  job ← insert_job event_id iid
  jobs ← insert_jobs event_id iids
  pure (job ∷ jobs)

-- The transaction: `tx.Begin`, the statements, `tx.Commit`; a deferred rollback undoes them all.
-- A commit that reports an error is taken as not done.
unfoldable pub create_event_with_jobs : CreateEventParams → Action (EventDetail × List Job)
create_event_with_jobs p = do
  call
  rolled_back (do
    ev ← insert_event p
    jobs ← insert_jobs ev.id p.instance_ids
    call
    pure (record { event = ev; instance_ids = p.instance_ids; jobs = [] }, jobs))

-- Two statements: the row, and its instances.
unfoldable pub get_event : ℕ → Action EventDetail
get_event id = do
  call
  db ← get_db
  ev ← lift (or_raise (first (event_has_id id) db.events) no_rows)
  call
  db' ← get_db
  let links = select (λ (r : ℕ × ℕ). r.0 == id) db'.event_instances
  pure (record { event = ev; instance_ids = map (λ (r : ℕ × ℕ). r.1) links; jobs = [] })

unfoldable pub update_event_status : ℕ → EventStatus → Action (Unit {0})
update_event_status event_id status = do
  call
  modify_db (λ d. record d {
    events = update (event_has_id event_id) (λ e. record e { status = status }) d.events;
  })
