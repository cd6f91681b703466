-- ===== src/Store/Rollup/Status.antt =====
-- The status that `RollupEvent` gives an event, against what the statuses mean.
use otel_forge.Prelude.{
  ℕ, ◌+◌, ◌≡◌, ◌↔◌, true, List, ◌==◌, All, count, exists, arith, inl, inr, subst, Bool-cases,
  All-of_counts, counts-of_All, exists-count, count-exists, count-split,
}
use otel_forge.Models.{EventStatus, JobStatus, Job}
use otel_forge.Store.Jobs.{of_event}
use otel_forge.Store.Rollup.{with_status, is_pending, count_jobs, count_pending, rollup_status}

-- Every job of the event has the status.
abbrev pub AllHave : JobStatus → ℕ → List Job → Type 0
AllHave s event_id = All (λ j. of_event event_id j ≡ true → with_status s event_id j ≡ true)

-- Some job of the event has the status.
abbrev pub SomeHas : JobStatus → ℕ → List Job → Type 0
SomeHas s event_id jobs = exists (with_status s event_id) jobs ≡ true

-- What a status says of the jobs of the event.
abbrev pub Fits : ℕ → List Job → EventStatus → Type 0
Fits event_id jobs EventStatus.queued = ⊥
Fits event_id jobs EventStatus.running = exists (is_pending event_id) jobs ≡ true
Fits event_id jobs EventStatus.completed = AllHave JobStatus.verified event_id jobs
Fits event_id jobs EventStatus.failed =
    AllHave JobStatus.failed event_id jobs × (exists (of_event event_id) jobs ≡ true)
Fits event_id jobs EventStatus.partial =
    (count (is_pending event_id) jobs ≡ 0)
    × SomeHas JobStatus.verified event_id jobs
    × SomeHas JobStatus.failed event_id jobs

-- Every job of the event is verified, failed or pending, and only one of these.
pub counts_partition :
    (event_id : ℕ) (jobs : List Job)
    → let c = count_jobs event_id jobs in
      c.total ≡ c.verified + c.failed + count_pending event_id jobs
unfolding count_jobs count_pending
counts_partition event_id jobs =
    count-split _ _ (is_pending event_id) (of_event event_id) jobs (λ j. ground arith)

with_status-of_event :
    (s : JobStatus) (event_id : ℕ) (j : Job)
    → with_status s event_id j ≡ true
    → of_event event_id j ≡ true
with_status-of_event s event_id j h = ground arith

module _ (event_id : ℕ) (jobs : List Job) where
  total-AllHave :
      (s : JobStatus)
      → count (with_status s event_id) jobs ≡ count (of_event event_id) jobs
      → AllHave s event_id jobs
  total-AllHave s =
      All-of_counts (with_status s event_id) (of_event event_id) jobs
        (with_status-of_event s event_id)

  AllHave-total :
      (s : JobStatus)
      → AllHave s event_id jobs
      → count (with_status s event_id) jobs ≡ count (of_event event_id) jobs
  AllHave-total s =
      counts-of_All (with_status s event_id) (of_event event_id) jobs
        (with_status-of_event s event_id)

  -- The status as `RollupEvent` computes it, where the jobs stand still.
  abbrev pub rolled_status : EventStatus
  rolled_status = rollup_status (count_jobs event_id jobs) (count_pending event_id jobs)

  rolled_status-Fits : Fits event_id jobs rolled_status
  unfolding rollup_status count_jobs count_pending
  rolled_status-Fits =
      let part = counts_partition event_id jobs in
      elim (Bool-cases (count (is_pending event_id) jobs == 0)) [
        | inr busy ↦ rw busy (exists-count (is_pending event_id) jobs (ground arith))
        | inl idle ↦ elim (Bool-cases (verified == total)) [
          | inl all ↦ rw (idle, all) (total-AllHave JobStatus.verified (ground arith))
          | inr some_not ↦ elim (Bool-cases (failed == total)) [
            | inl all ↦
                rw (idle, some_not, all)
                  (
                    total-AllHave JobStatus.failed (ground arith),
                    exists-count (of_event event_id) jobs (ground arith),
                  )
            | inr mixed ↦
                rw (idle, some_not, mixed)
                  (
                    ground arith,
                    exists-count (with_status JobStatus.verified event_id) jobs (ground arith),
                    exists-count (with_status JobStatus.failed event_id) jobs (ground arith),
                  )
          ]
        ]
      ]
    where
      verified : ℕ
      verified = count (with_status JobStatus.verified event_id) jobs

      failed : ℕ
      failed = count (with_status JobStatus.failed event_id) jobs

      total : ℕ
      total = count (of_event event_id) jobs

  Fits-rolled_status : (s : EventStatus) → Fits event_id jobs s → rolled_status ≡ s
  unfolding rollup_status count_jobs count_pending
  Fits-rolled_status EventStatus.queued h = absurd h
  Fits-rolled_status EventStatus.running h =
      ground (arith, count-exists (is_pending event_id) jobs h)
  Fits-rolled_status EventStatus.completed h =
      ground (arith, counts_partition event_id jobs, AllHave-total JobStatus.verified h)
  Fits-rolled_status EventStatus.failed h = ground (
    arith,
    counts_partition event_id jobs,
    AllHave-total JobStatus.failed h.0,
    count-exists (of_event event_id) jobs h.1,
  )
  Fits-rolled_status EventStatus.partial h = ground (
    arith,
    counts_partition event_id jobs,
    count-exists (with_status JobStatus.verified event_id) jobs h.1,
    count-exists (with_status JobStatus.failed event_id) jobs h.2,
  )

  -- The status computed from the counts is the one whose meaning fits the jobs, and no other.
  pub rolled_status_exact : (s : EventStatus) → Fits event_id jobs s ↔ (rolled_status ≡ s)
  rolled_status_exact s =
      (Fits-rolled_status s, λ e. subst (Fits event_id jobs) e rolled_status-Fits)
