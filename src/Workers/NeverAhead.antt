-- ===== src/Workers/NeverAhead.antt =====
-- The row of an event, as the workers race.
use otel_forge.Prelude.{
  ℕ, ◌≤◌, ◌≡◌, ◌∙◌, refl, sym, subst, inl, inr, ◌==◌, ==_iff, List, [], ◌∷◌, All, All-map, update,
  Bool-cases, Option-cases, arith,
}
use otel_forge.Models.{EventStatus, Event, Job}
use otel_forge.Action.{World, ◌>>=◌}
use otel_forge.Store.Events.{event_has_id, update_event_status}
use otel_forge.Store.Rollup.{Counts, count_jobs, count_pending, rollup_status, write_rollup}
use otel_forge.Store.Rollup.Status.{counts_partition}
use otel_forge.Workers.{
  Phase, outside, counted, summed, Shared, moved, Statement, event_starts, job_starts, job_ends,
  counts, sums, writes, gives_up, Statements, none_yet, then_one, OnOpenJob, EndsOnce,
}
use otel_forge.Workers.Monotone.{Later, update_job_running-Later, update_job_result-Later}

-- What has been read of an event is not ahead of its jobs.
pub record NotAhead (event_id : ℕ) (c : Counts) (jobs : List Job) : Type 0 where
  pub total_same : c.total ≡ (count_jobs event_id jobs).total
  pub verified_le : c.verified ≤ (count_jobs event_id jobs).verified
  pub failed_le : c.failed ≤ (count_jobs event_id jobs).failed

-- The row of an event is not ahead of its jobs: it counts no more of them than there are, and has a
-- status that says that they have ended only if they have.
pub record RowNotAhead (jobs : List Job) (e : Event) : Type 0 where
  pub verified_le : e.verified_count ≤ (count_jobs e.id jobs).verified
  pub failed_le : e.failed_count ≤ (count_jobs e.id jobs).failed
  pub completed_only :
      e.status ≡ EventStatus.completed
      → (count_jobs e.id jobs).verified ≡ (count_jobs e.id jobs).total
  pub failed_only :
      e.status ≡ EventStatus.failed → (count_jobs e.id jobs).failed ≡ (count_jobs e.id jobs).total
  pub partial_only : e.status ≡ EventStatus.partial → count_pending e.id jobs ≡ 0

abbrev pub PhaseNotAhead : List Job → Phase → Type 0
PhaseNotAhead jobs outside = Unit
PhaseNotAhead jobs (counted id c) = NotAhead id c jobs
PhaseNotAhead jobs (summed id c pending) =
    NotAhead id c jobs × (pending ≡ 0 → count_pending id jobs ≡ 0)

pub record NoneAhead (s : Shared) : Type 0 where
  pub rows : All (RowNotAhead s.world.jobs) s.world.events
  pub phases_too : (k : ℕ) → PhaseNotAhead s.world.jobs (s.phases k)

module _ (jobs jobs' : List Job) (later : Later jobs jobs') where
  NotAhead-Later : (id : ℕ) (c : Counts) → NotAhead id c jobs → NotAhead id c jobs'
  NotAhead-Later id c n = record {
    total_same = n.total_same ∙ sym (later.total_same id);
    verified_le = omega (arith, n.verified_le, later.verified_le id);
    failed_le = omega (arith, n.failed_le, later.failed_le id);
  }

  PhaseNotAhead-Later : (p : Phase) → PhaseNotAhead jobs p → PhaseNotAhead jobs' p
  PhaseNotAhead-Later outside h = tt
  PhaseNotAhead-Later (counted id c) h = NotAhead-Later id c h
  PhaseNotAhead-Later (summed id c pending) (h, ended) =
      (NotAhead-Later id c h, λ e. (let now = ended e in omega (arith, later.pending_le id)))

  RowNotAhead-Later : (e : Event) → RowNotAhead jobs e → RowNotAhead jobs' e
  RowNotAhead-Later e r = record {
    verified_le = omega (arith, r.verified_le, later.verified_le e.id);
    failed_le = omega (arith, r.failed_le, later.failed_le e.id);
    completed_only = λ h.
        (let was = r.completed_only h in
          omega
            (arith, counts_partition e.id jobs', later.total_same e.id, later.verified_le e.id));
    failed_only = λ h.
        (let was = r.failed_only h in
          omega (arith, counts_partition e.id jobs', later.total_same e.id, later.failed_le e.id));
    partial_only = λ h. (let was = r.partial_only h in omega (arith, later.pending_le e.id));
  }

NoneAhead-Later :
    (phases : ℕ → Phase) (w w' : World)
    → Later w.jobs w'.jobs
    → w'.events ≡ w.events
    → NoneAhead (record { world = w; phases = phases })
    → NoneAhead (record { world = w'; phases = phases })
NoneAhead-Later phases w w' later same n = record {
  rows = rw same (All-map w.events (RowNotAhead-Later w.jobs w'.jobs later) n.rows);
  phases_too = λ k. PhaseNotAhead-Later w.jobs w'.jobs later (phases k) (n.phases_too k);
}

-- The row that a worker writes.
written_row :
    (jobs : List Job) (c : Counts) (pending : ℕ) (e : Event)
    → NotAhead e.id c jobs
    → (pending ≡ 0 → count_pending e.id jobs ≡ 0)
    → RowNotAhead jobs (record e {
      status = rollup_status c pending;
      verified_count = c.verified;
      failed_count = c.failed;
      total_jobs = c.total;
    })
unfolding rollup_status
written_row jobs c pending e n ended =
    let part = counts_partition e.id jobs in
    record {
      verified_le = n.verified_le;
      failed_le = n.failed_le;
      completed_only = λ h.
          (let all : c.verified ≡ c.total = ground arith in
            omega (arith, part, n.verified_le, n.total_same));
      failed_only = λ h.
          (let all : c.failed ≡ c.total = ground arith in
            omega (arith, part, n.failed_le, n.total_same));
      partial_only = λ h. ended (ground arith);
    }

moved-NotAhead :
    (jobs : List Job) (k : ℕ) (p : Phase) (phases : ℕ → Phase)
    → PhaseNotAhead jobs p
    → ((n : ℕ) → PhaseNotAhead jobs (phases n))
    → (n : ℕ) → PhaseNotAhead jobs (moved k p phases n)
moved-NotAhead jobs k p phases h rest n = elim (Bool-cases (n == k)) [
  | inl same ↦ rw same h
  | inr other ↦ rw other (rest n)
]

write_rollup-NotAhead :
    (jobs : List Job) (id : ℕ) (c : Counts) (pending : ℕ) (events : List Event)
    → NotAhead id c jobs
    → (pending ≡ 0 → count_pending id jobs ≡ 0)
    → All (RowNotAhead jobs) events
    → All (RowNotAhead jobs) (write_rollup id c pending events)
unfolding write_rollup
write_rollup-NotAhead jobs id c pending [] n ended a = tt
write_rollup-NotAhead jobs id c pending (e ∷ events) n ended (r, rest) =
    let later = write_rollup-NotAhead jobs id c pending events n ended rest in
    elim (Bool-cases (e.id == id)) [
      | inl here ↦
          let same : id ≡ e.id = ground (arith, ==_iff e.id id) in
          rw here (
            written_row jobs c pending e (subst (λ i. NotAhead i c jobs) same n)
                (subst (λ i. pending ≡ 0 → count_pending i jobs ≡ 0) same ended),
            later,
          )
      | inr other ↦ rw other (r, later)
    ]

running_row-NotAhead :
    (jobs : List Job) (e : Event)
    → RowNotAhead jobs e
    → RowNotAhead jobs (record e { status = EventStatus.running })
running_row-NotAhead jobs e r = record {
  verified_le = r.verified_le;
  failed_le = r.failed_le;
  completed_only = λ h. cc;
  failed_only = λ h. cc;
  partial_only = λ h. cc;
}

running_rows-NotAhead :
    (jobs : List Job) (id : ℕ) (events : List Event)
    → All (RowNotAhead jobs) events
    → All
        (RowNotAhead jobs)
        (update (event_has_id id) (λ e. record e { status = EventStatus.running }) events)
running_rows-NotAhead jobs id [] a = tt
running_rows-NotAhead jobs id (e ∷ events) (r, rest) = elim (Bool-cases (e.id == id)) [
  | inl here ↦ rw here (running_row-NotAhead jobs e r, running_rows-NotAhead jobs id events rest)
  | inr other ↦ rw other (r, running_rows-NotAhead jobs id events rest)
]

Statement-NoneAhead :
    (u v : Shared) → NoneAhead u → (now : Statement u v) → OnOpenJob now → NoneAhead v
unfolding update_event_status ◌>>=◌ OnOpenJob
Statement-NoneAhead _ _ n (event_starts id env w phases) _ =
    elim (Option-cases (env.fault w.calls)) [
      | inr (s, failed) ↦ rw failed (record { rows = n.rows; phases_too = n.phases_too })
      | inl fine ↦ rw fine (record {
        rows = running_rows-NotAhead w.jobs id w.events n.rows;
        phases_too = n.phases_too;
      })
    ]
Statement-NoneAhead _ _ n (job_starts id env w phases) h =
    let (later, same) = update_job_running-Later id env w h in
    NoneAhead-Later phases w _ later same n
Statement-NoneAhead _ _ n (job_ends id s out errors code env w phases _) h =
    let (later, same) = update_job_result-Later id s out errors code env w h in
    NoneAhead-Later phases w _ later same n
Statement-NoneAhead _ _ n (counts k id w phases _) _ = record {
  rows = n.rows;
  phases_too =
      moved-NotAhead w.jobs k (counted id (count_jobs id w.jobs)) phases
        (record { total_same = refl; verified_le = omega arith; failed_le = omega arith })
        n.phases_too;
}
Statement-NoneAhead _ _ n (sums k id c w phases at) _ = record {
  rows = n.rows;
  phases_too =
      moved-NotAhead w.jobs k (summed id c (count_pending id w.jobs)) phases
        (subst (PhaseNotAhead w.jobs) at (n.phases_too k), λ e. e) n.phases_too;
}
Statement-NoneAhead _ _ n (writes k id c pending w phases at) _ =
    let (read, ended) = subst (PhaseNotAhead w.jobs) at (n.phases_too k) in
    record {
      rows = write_rollup-NotAhead w.jobs id c pending w.events read ended n.rows;
      phases_too = moved-NotAhead w.jobs k outside phases tt n.phases_too;
    }
Statement-NoneAhead _ _ n (gives_up k w phases) _ = record {
  rows = n.rows;
  phases_too = moved-NotAhead w.jobs k outside phases tt n.phases_too;
}

-- However the statements of the workers interleave, and whichever of them fail, the row of no event
-- gets ahead of its jobs, where none is at the start, no worker is in `RollupEvent` then, and no
-- statement on the way starts or ends a job that has ended, as a redelivery or a retry after the
-- end of the job does: the row counts no more verified and no more failed jobs than there are, it
-- is COMPLETED only if every job is verified, FAILED only if every job has failed, and PARTIAL only
-- if none is queued or running.
pub rows_never_ahead :
    (start s : Shared)
    → All (RowNotAhead start.world.jobs) start.world.events
    → ((k : ℕ) → start.phases k ≡ outside)
    → (path : Statements start s) → EndsOnce path
    → All (RowNotAhead s.world.jobs) s.world.events
unfolding EndsOnce
rows_never_ahead start s rows all_outside path once = (go s path once).rows
  where
    go : (s : Shared) → (path : Statements start s) → EndsOnce path → NoneAhead s
    go _ none_yet _ = record {
      rows = rows;
      phases_too = λ k. subst (PhaseNotAhead start.world.jobs) (sym (all_outside k)) tt;
    }
    go _ (then_one {u} {v} before now) (once, open_job) =
        Statement-NoneAhead u v (go u before once) now open_job
