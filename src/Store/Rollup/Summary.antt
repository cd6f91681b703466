-- ===== src/Store/Rollup/Summary.antt =====
-- What `RollupEvent` leaves in the tables.
use otel_forge.Prelude.{
  ℕ, ◌≡◌, refl, ==_iff, true, List, All, All-update, arith, subst, sym, ◌⊎◌, inl, inr,
}
use otel_forge.Models.{Event, Job}
use otel_forge.Action.{Env, World, Db, Error, ok, err, ◌>>=◌}
use otel_forge.Action.Rules.{Result-cases}
use otel_forge.Store.Events.{event_has_id}
use otel_forge.Store.Rollup.{count_jobs, count_pending, write_rollup, rollup_event}
use otel_forge.Store.Rollup.Status.{Fits, rolled_status, rolled_status_exact}

-- The row of an event says what its jobs are.
pub record Summarises (jobs : List Job) (e : Event) : Type 0 where
  pub status_fits : Fits e.id jobs e.status
  pub verified_counted : e.verified_count ≡ (count_jobs e.id jobs).verified
  pub failed_counted : e.failed_count ≡ (count_jobs e.id jobs).failed
  pub total_counted : e.total_jobs ≡ (count_jobs e.id jobs).total

abbrev pub rolled_db : ℕ → Db → Db
rolled_db id db = record db {
  events = write_rollup id (count_jobs id db.jobs) (count_pending id db.jobs) db.events;
}

-- With no statement between its own, the call writes the rolled-up rows, or fails and writes none.
pub rollup_event_ok :
    (id : ℕ) (env : Env) (w : World)
    → (rollup_event id env w).0 ≡ ok tt
    → (rollup_event id env w).1.db ≡ rolled_db id w.db
unfolding rollup_event ◌>>=◌
rollup_event_ok id env w h = ground arith

pub rollup_event_err :
    (id : ℕ) (env : Env) (w : World) {e : Error}
    → (rollup_event id env w).0 ≡ err e
    → (rollup_event id env w).1.db ≡ w.db
unfolding rollup_event ◌>>=◌
rollup_event_err id env w h = ground arith

write_rollup-Summarises :
    (id : ℕ) (jobs : List Job) (events : List Event)
    → All
        (λ e. event_has_id id e ≡ true → Summarises jobs e)
        (write_rollup id (count_jobs id jobs) (count_pending id jobs) events)
unfolding write_rollup
write_rollup-Summarises id jobs events =
    All-update _ (event_has_id id) _ events
      (λ e h _.
        let same = (==_iff e.id id).0 h in
        rw same (record {
          status_fits = (rolled_status_exact id jobs (rolled_status id jobs)).1 refl;
          verified_counted = refl;
          failed_counted = refl;
          total_counted = refl;
        }))
      (λ e h k. cc)

-- Each event with the identifier has a row that says what the jobs are.
abbrev pub RolledUp : ℕ → Db → Type 0
RolledUp id db = All (λ e. event_has_id id e ≡ true → Summarises db.jobs e) db.events

pub rollup_event-RolledUp :
    (id : ℕ) (env : Env) (w : World)
    → (rollup_event id env w).0 ≡ ok tt
    → ((rollup_event id env w).1.jobs ≡ w.jobs) × RolledUp id (rollup_event id env w).1.db
rollup_event-RolledUp id env w h =
    subst (λ (db : Db). (db.jobs ≡ w.jobs) × RolledUp id db) (sym (rollup_event_ok id env w h))
      (refl, write_rollup-Summarises id w.jobs w.events)

-- With no other statement between its own, either `RollupEvent` returns nil, the row of the event
-- has the status and the counts that its jobs call for, and no job is changed; or it returns an
-- error and the tables are as they were.
pub rollup_event_summary :
    (id : ℕ) (env : Env) (w : World)
    → let (r, w') = rollup_event id env w in
      ((r ≡ ok tt) × (w'.jobs ≡ w.jobs) × RolledUp id w'.db)
      ⊎ ((e : Error) × (r ≡ err e) × (w'.db ≡ w.db))
rollup_event_summary id env w = elim (Result-cases (rollup_event id env w).0) [
  | inl (done, h) ↦
      inl (h, (rollup_event-RolledUp id env w h).0, (rollup_event-RolledUp id env w h).1)
  | inr (e, h) ↦ inr (e, h, rollup_event_err id env w h)
]
