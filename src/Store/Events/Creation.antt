-- ===== src/Store/Events/Creation.antt =====
-- What the transaction of `CreateEventWithJobs` leaves in the tables.
use otel_forge.Prelude.{
  ◌+◌, ◌≡◌, ◌∙◌, refl, ◌⊎◌, String, inl, inr, sym, ap, subst, true, false, ◌==◌, List, [], ◌∷◌,
  ◌++◌, map, length, All, exists, arith,
}
use mathlib.Core.Path.{subst₂}
use otel_forge.Models.{EventStatus, Instance, Event, EventDetail, Job}
use otel_forge.Action.{
  Env, World, Db, Action, Result, Error, ok, err, pure, ◌>>=◌, ◌>>◌, driver, call, rolled_back,
  settle,
}
use otel_forge.Action.Rules.{Result-cases, >>=-eq-ok, call_bind, counted_up}
use otel_forge.Store.Events.{
  CreateEventParams, event_has_id, insert_event, insert_jobs, create_event_with_jobs,
}
use otel_forge.Store.Events.Insertion.{IsFresh, link_of, Inserted, insert_jobs_ok}

-- An event as it is inserted.
pub record IsNewEvent (p : CreateEventParams) (e : Event) : Type 0 where
  pub owner_same : e.owner_id ≡ p.owner_id
  pub name_same : e.name ≡ p.name
  pub task_same : e.task_type ≡ p.task_type
  pub config_same : e.config_content ≡ p.config_content
  pub checksum_same : e.config_checksum ≡ p.config_checksum
  pub is_queued : e.status ≡ EventStatus.queued
  pub all_counted : e.total_jobs ≡ length p.instance_ids
  pub none_verified : e.verified_count ≡ 0
  pub none_failed : e.failed_count ≡ 0

insert_event_ok :
    (p : CreateEventParams) (env : Env) (w : World) {e : Event}
    → (insert_event p env w).0 ≡ ok e
    → ((insert_event p env w).1
        ≡ record w { db = record w.db { events = w.events ++ e ∷ [] }; calls = w.calls + 1 })
      × IsNewEvent p e
      × (exists (event_has_id e.id) w.events ≡ false)
unfolding insert_event ◌>>=◌
insert_event_ok p env w h = ground arith

-- What the transaction has done where it returned no error.
pub record Created (p : CreateEventParams) (ev : EventDetail) (jobs : List Job) (w w' : World)
    : Type 0 where
  pub event_new : IsNewEvent p ev.event
  pub id_unused : exists (event_has_id ev.id) w.events ≡ false
  pub db_then : w'.db ≡ record w.db {
    events = w.events ++ ev.event ∷ [];
    event_instances = w.event_instances ++ map (link_of ev.id) p.instance_ids;
    jobs = w.jobs ++ jobs;
  }
  pub ready_same : w'.ready ≡ w.ready
  pub dead_same : w'.dead ≡ w.dead
  pub all_fresh : All (IsFresh ev.id) jobs
  pub in_order : map (λ (j : Job). j.instance_id) jobs ≡ p.instance_ids
  pub targets_exist :
      All (λ iid. exists (λ (i : Instance). i.id == iid) w.instances ≡ true) p.instance_ids

settle_err :
    {A : Type 0} (db : Db) (o : Result A × World) {e : Error}
    → (settle db o).0 ≡ err e
    → (settle db o).1.db ≡ db
settle_err db (ok a, w) h = cc
settle_err db (err e, w) h = refl

settle_ok :
    {A : Type 0} (db : Db) (o : Result A × World) {a : A} → (settle db o).0 ≡ ok a → settle db o ≡ o
settle_ok db (ok a, w) h = refl
settle_ok db (err e, w) h = cc

abbrev body : CreateEventParams → Action (EventDetail × List Job)
body p = do
  ev ← insert_event p
  jobs ← insert_jobs ev.id p.instance_ids
  call
  pure (record { event = ev; instance_ids = p.instance_ids; jobs = [] }, jobs)

abbrev detail_of : CreateEventParams → Event → EventDetail
detail_of p e = record { event = e; instance_ids = p.instance_ids; jobs = [] }

abbrev with_event : Event → World → World
with_event e w = record w { db = record w.db { events = w.events ++ e ∷ [] }; calls = w.calls + 1 }

call_keeps : (env : Env) (w : World) → (call env w).1 ≡ record w { calls = w.calls + 1 }
unfolding call
call_keeps env w = refl

Created_lem :
    (p : CreateEventParams) (e : Event) (js : List Job) (w v : World)
    → IsNewEvent p e
    → exists (event_has_id e.id) w.events ≡ false
    → Inserted e.id p.instance_ids js (with_event e w) v
    → Created p (detail_of p e) js w (record v { calls = v.calls + 1 })
Created_lem p e js w v new unused ins = record {
  event_new = new;
  id_unused = unused;
  db_then = ins.db_then;
  ready_same = ins.ready_same;
  dead_same = ins.dead_same;
  all_fresh = ins.all_fresh;
  in_order = ins.in_order;
  targets_exist = ins.targets_exist;
}

body_ok :
    (p : CreateEventParams) (env : Env) (w : World) {ev : EventDetail} {jobs : List Job}
    → (body p env w).0 ≡ ok (ev, jobs)
    → Created p ev jobs w (body p env w).1 × (ev.instance_ids ≡ p.instance_ids)
body_ok p env w {ev} {jobs} h =
    let (e, inserted, h1, e1) =
      >>=-eq-ok (insert_event p)
        (λ e. insert_jobs e.id p.instance_ids >>= λ js.
          call >> pure (record { event = e; instance_ids = p.instance_ids; jobs = [] }, js))
        env w h in
    let u = (insert_event p env w).1 in
    let (js, made, h2, e2) =
      >>=-eq-ok (insert_jobs e.id p.instance_ids)
        (λ js. call >> pure (record { event = e; instance_ids = p.instance_ids; jobs = [] }, js))
        env u h1 in
    let v = (insert_jobs e.id p.instance_ids env u).1 in
    let (_, committed, h3, e3) =
      >>=-eq-ok call
        (λ _. pure (record { event = e; instance_ids = p.instance_ids; jobs = [] }, js)) env v h2 in
    let (u_is, new, unused) = insert_event_ok p env w inserted in
    let ins = insert_jobs_ok e.id p.instance_ids env u made in
    let made_all =
      Created_lem p e js w v new unused
        (subst (λ x. Inserted e.id p.instance_ids js x v) u_is ins) in
    let same_detail : detail_of p e ≡ ev = unfold pure in ground arith in
    let same_jobs : js ≡ jobs = unfold pure in ground arith in
    let at_end : (body p env w).1 ≡ record v { calls = v.calls + 1 } =
      ap (λ (o : Result (EventDetail × List Job) × World). o.1) (e1 ∙ e2 ∙ e3)
      ∙ (unfold pure in call_keeps env v) in
    (
      subst (λ x. Created p ev jobs w x) (sym at_end)
          (subst₂ (λ d all. Created p d all w (record v { calls = v.calls + 1 })) same_detail
            same_jobs made_all),
      ap (λ (d : EventDetail). d.instance_ids) (sym same_detail),
    )

Created-counted :
    (p : CreateEventParams) (ev : EventDetail) (jobs : List Job) (w z : World)
    → Created p ev jobs (counted_up w) z
    → Created p ev jobs w z
Created-counted p ev jobs w z c = record {
  event_new = c.event_new;
  id_unused = c.id_unused;
  db_then = c.db_then;
  ready_same = c.ready_same;
  dead_same = c.dead_same;
  all_fresh = c.all_fresh;
  in_order = c.in_order;
  targets_exist = c.targets_exist;
}

create_event_with_jobs-cases :
    (p : CreateEventParams) (env : Env) (w : World)
    → (create_event_with_jobs p env w ≡ settle w.db (body p env (counted_up w)))
      ⊎ ((s : String) × (create_event_with_jobs p env w ≡ (err (driver s), counted_up w)))
unfolding create_event_with_jobs rolled_back
create_event_with_jobs-cases p env w = elim (call_bind (rolled_back (body p)) env w) [
  | inl (fine, e) ↦ inl e
  | inr (s, failed, e) ↦ inr (s, e)
]

pub create_event_with_jobs_ok :
    (p : CreateEventParams) (env : Env) (w : World) {ev : EventDetail} {jobs : List Job}
    → (create_event_with_jobs p env w).0 ≡ ok (ev, jobs)
    → Created p ev jobs w (create_event_with_jobs p env w).1
create_event_with_jobs_ok p env w {ev} {jobs} h = elim (create_event_with_jobs-cases p env w) [
  | inl e ↦
      let settled = settle_ok w.db (body p env (counted_up w)) {a = (ev, jobs)} (rw (← e) h) in
      let done = e ∙ settled in
      subst (λ (o : Result (EventDetail × List Job) × World). Created p ev jobs w o.1) (sym done)
        (Created-counted p ev jobs w _ (body_ok p env (counted_up w) (rw (← done) h)).0)
  | inr (s, e) ↦ cc
]

pub create_event_with_jobs_err :
    (p : CreateEventParams) (env : Env) (w : World) {x : Error}
    → (create_event_with_jobs p env w).0 ≡ err x
    → (create_event_with_jobs p env w).1.db ≡ w.db
create_event_with_jobs_err p env w {x} h = elim (create_event_with_jobs-cases p env w) [
  | inl e ↦ rw e (settle_err w.db (body p env (counted_up w)) {e = x} (rw (← e) h))
  | inr (s, e) ↦ rw e refl
]

-- `CreateEventWithJobs` is all or nothing. Either it returns an event and its jobs, and there is
-- one more event, which has an unused identifier, is queued and counts its instances, and one more
-- queued job for each instance, in the order of the request, and nothing else has changed but the
-- links of the event to its instances; or it returns an error and the tables are as they were.
pub create_event_with_jobs_atomic :
    (p : CreateEventParams) (env : Env) (w : World)
    → let (r, w') = create_event_with_jobs p env w in
      ((ev : EventDetail) × (jobs : List Job) × (r ≡ ok (ev, jobs)) × Created p ev jobs w w')
      ⊎ ((e : Error) × (r ≡ err e) × (w'.db ≡ w.db))
create_event_with_jobs_atomic p env w = elim (Result-cases (create_event_with_jobs p env w).0) [
  | inl ((ev, jobs), h) ↦ inl (ev, jobs, h, create_event_with_jobs_ok p env w h)
  | inr (e, h) ↦ inr (e, h, create_event_with_jobs_err p env w h)
]
