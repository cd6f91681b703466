-- ===== src/Service/Rerun.antt =====
-- What `RerunFailed` does to the failed jobs of an event, and who may ask for it.
use otel_forge.Prelude.{
  ℕ, ◌≡◌, ◌∙◌, ◌⊎◌, inl, inr, refl, sym, ap, subst, Bool, true, false, not, Option-cases, some,
  List, [], ◌∷◌, ◌++◌, map, first, exists, select, update, arith, if◌then◌else◌,
}
use otel_forge.Models.{Event, EventDetail, Job}
use otel_forge.Action.{
  Env, World, Db, Action, Result, ok, pure, try, require, ◌>>=◌, ◌>>◌, event_not_found,
}
use otel_forge.Action.Rules.{Does, >>=-eq-ok}
use otel_forge.Store.Users.{user_owns_event}
use otel_forge.Store.Events.{event_has_id, get_event, update_event_status}
use otel_forge.Store.Jobs.{failed_of, reset, reset_failed_jobs}
use otel_forge.Service.{refused, publish_all, rerun_failed}
use otel_forge.Service.Checks.{OnlyReads, reading}
use otel_forge.Service.Launch.{set_running, delivery_of, publish_all_ok}

reset_failed_jobs_ok :
    (id : ℕ) (env : Env) (w : World) {jobs : List Job}
    → (reset_failed_jobs id env w).0 ≡ ok jobs
    → let w' = (reset_failed_jobs id env w).1 in
      (w'.db ≡ record w.db {
        jobs = update (failed_of id) reset w.jobs;
        events = update (event_has_id id) set_running w.events;
      })
      × (w'.ready ≡ w.ready)
      × (w'.dead ≡ w.dead)
      × (jobs ≡ map reset (select (failed_of id) w.jobs))
unfolding reset_failed_jobs update_event_status ◌>>=◌
reset_failed_jobs_ok id env w h = ground arith

reset_none_failed :
    (id : ℕ) (jobs : List Job) → exists (failed_of id) (update (failed_of id) reset jobs) ≡ false
reset_none_failed id [] = refl
reset_none_failed id (j ∷ js) = ground (arith, reset_none_failed id js)

pub get_event-OnlyReads : (id : ℕ) → Does OnlyReads (get_event id)
unfolding get_event
get_event-OnlyReads id = search reading depth 12

pub user_owns_event-OnlyReads : (u id : ℕ) → Does OnlyReads (user_owns_event u id)
unfolding user_owns_event
user_owns_event-OnlyReads u id = search reading depth 12

pub get_event_row :
    (id : ℕ) (env : Env) (w : World) {d : EventDetail}
    → (get_event id env w).0 ≡ ok d
    → first (event_has_id id) w.events ≡ some d.event
unfolding get_event ◌>>=◌
get_event_row id env w h = ground arith

-- The event is there and belongs to the user.
pub record EventOwnedBy (owner_id id : ℕ) (w : World) : Type 0 where
  pub row : Event
  pub found : first (event_has_id id) w.events ≡ some row
  pub owned : row.owner_id ≡ owner_id

pub EventOwnedBy-OnlyReads :
    (o id : ℕ) (w u : World) → OnlyReads w u → EventOwnedBy o id u → EventOwnedBy o id w
EventOwnedBy-OnlyReads o id w u read h = record {
  row = h.row;
  found = subst (λ (d : Db). first (event_has_id id) d.events ≡ some h.row) read.db_same h.found;
  owned = h.owned;
}

pub user_owns_event_ok :
    (o id : ℕ) (env : Env) (w : World)
    → (user_owns_event o id env w).0 ≡ ok true
    → EventOwnedBy o id w
unfolding user_owns_event ◌>>=◌
user_owns_event_ok o id env w h = elim (Option-cases (env.fault w.calls)) [
  | inl fine ↦ elim (Option-cases (first (event_has_id id) w.events)) [
    | inl missing ↦ ground arith
    | inr (e, found) ↦ record { row = e; found = found; owned = ground arith }
  ]
  | inr (s, failed) ↦ ground arith
]

-- The check of the owner, which an administrator passes over.
abbrev pub owner_check : ℕ → ℕ → Bool → Action (Unit {0})
owner_check event_id owner_id admin =
    if admin
    then pure tt
    else (do r ← try (user_owns_event owner_id event_id); require (not (refused r)) event_not_found)

pub owner_check-OnlyReads :
    (event_id owner_id : ℕ) (admin : Bool) → Does OnlyReads (owner_check event_id owner_id admin)
owner_check-OnlyReads event_id owner_id true = search reading
owner_check-OnlyReads event_id owner_id false =
    let owns = user_owns_event-OnlyReads owner_id event_id in search reading depth 12

owner_check_ok :
    (event_id owner_id : ℕ) (admin : Bool) (env : Env) (w : World)
    → (owner_check event_id owner_id admin env w).0 ≡ ok tt
    → (admin ≡ true) ⊎ EventOwnedBy owner_id event_id w
owner_check_ok event_id owner_id true env w h = inl refl
owner_check_ok event_id owner_id false env w h =
    let (r, tried, h1, _) =
      >>=-eq-ok (try (user_owns_event owner_id event_id))
        (λ r. require (not (refused r)) event_not_found) env w h in
    inr (user_owns_event_ok owner_id event_id env w (unfold try require in ground arith))

-- What a rerun has done.
pub record Rerun (id : ℕ) (ev : EventDetail) (w w' : World) : Type 0 where
  pub jobs_then : w'.jobs ≡ update (failed_of id) reset w.jobs
  pub none_failed : exists (failed_of id) w'.jobs ≡ false
  pub events_then : w'.events ≡ update (event_has_id id) set_running w.events
  pub found : first (event_has_id id) w'.events ≡ some ev.event
  pub ready_then :
      w'.ready
      ≡ w.ready ++ map (delivery_of ev.task_type) (map reset (select (failed_of id) w.jobs))
  pub dead_same : w'.dead ≡ w.dead

abbrev pub after_owner_check : ℕ → Action EventDetail
after_owner_check id =
    reset_failed_jobs id >>= λ jobs. get_event id >>= λ ev. publish_all ev.task_type jobs >> pure ev

after_owner_check_ok :
    (id : ℕ) (env : Env) (w : World) {ev : EventDetail}
    → (after_owner_check id env w).0 ≡ ok ev
    → Rerun id ev w (after_owner_check id env w).1
after_owner_check_ok id env w {ev} h =
    let (jobs, done, h1, e1) =
      >>=-eq-ok (reset_failed_jobs id)
        (λ jobs. get_event id >>= λ ev. publish_all ev.task_type jobs >> pure ev) env w h in
    let u = (reset_failed_jobs id env w).1 in
    let (d, got, h2, e2) =
      >>=-eq-ok (get_event id) (λ ev. publish_all ev.task_type jobs >> pure ev) env u h1 in
    let v = (get_event id env u).1 in
    let (_, published, h3, e3) = >>=-eq-ok (publish_all d.task_type jobs) (λ _. pure d) env v h2 in
    let z = (publish_all d.task_type jobs env v).1 in
    let (db1, ready1, dead1, jobs1) = reset_failed_jobs_ok id env w done in
    let read = (get_event-OnlyReads id).at env u in
    let (ready2, db2, dead2) = publish_all_ok d.task_type jobs env v published in
    let db_z = db2 ∙ read.db_same ∙ db1 in
    let same : d ≡ ev = unfold pure in ground arith in
    let at_end : (after_owner_check id env w).1 ≡ z =
      ap (λ (o : Result EventDetail × World). o.1) (e1 ∙ e2 ∙ e3) ∙ (unfold pure in refl) in
    subst (λ x. Rerun id ev w x) (sym at_end)
      (subst (λ x. Rerun id x w z) same
        (record {
          jobs_then = ap (λ (x : Db). x.jobs) db_z;
          none_failed = rw db_z (reset_none_failed id w.jobs);
          events_then = ap (λ (x : Db). x.events) db_z;
          found = rw (db2, read.db_same) (get_event_row id env u got);
          ready_then = ready2 ∙ rw (read.ready_same, ready1, jobs1) refl;
          dead_same = dead2 ∙ read.dead_same ∙ dead1;
        }))

-- When `RerunFailed` returns an event, the caller is an administrator or owns the event; the
-- failed jobs of the event are queued again with nothing of their last run, and no job of it is
-- failed; every other job is as it was; the event is running, whether it had a failed job or not;
-- and the messages of the reset jobs, and only these, stand at the end of the queue.
pub rerun_failed_resets :
    (id owner_id : ℕ) (admin : Bool) (env : Env) (w : World) (ev : EventDetail)
    → (rerun_failed id owner_id admin env w).0 ≡ ok ev
    → ((admin ≡ true) ⊎ EventOwnedBy owner_id id w)
      × Rerun id ev w (rerun_failed id owner_id admin env w).1
unfolding rerun_failed
rerun_failed_resets id owner_id admin env w ev h =
    let check = owner_check id owner_id admin in
    let (_, allowed, h1, e1) = >>=-eq-ok check (λ _. after_owner_check id) env w h in
    let u = (check env w).1 in
    let read = (owner_check-OnlyReads id owner_id admin).at env w in
    let done = after_owner_check_ok id env u h1 in
    let z = (after_owner_check id env u).1 in
    (
      owner_check_ok id owner_id admin env w allowed,
      subst (λ (o : Result EventDetail × World). Rerun id ev w o.1) (sym e1)
          (record {
            jobs_then = done.jobs_then ∙ rw read.db_same;
            none_failed = done.none_failed;
            events_then = done.events_then ∙ rw read.db_same;
            found = done.found;
            ready_then = done.ready_then ∙ rw (read.db_same, read.ready_same);
            dead_same = done.dead_same ∙ read.dead_same;
          }),
    )
