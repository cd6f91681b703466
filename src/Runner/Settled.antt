-- ===== src/Runner/Settled.antt =====
-- A job that has ended, and an event that is rolled up, stay so while `Handle` runs for other
-- jobs, and are so again when it has run for the same.
use otel_forge.Prelude.{
  ℕ, ◌≡◌, ◌∙◌, sym, ap, subst, refl, inl, inr, Bool, true, false, not, List, map, ◌==◌, ==_iff, All,
  All-map, All-select, select-All, count, count-select, select, Bool-cases, arith, [], ◌∷◌,
}
use otel_forge.Models.{JobStatus, Job, Event}
use otel_forge.Action.{World}
use otel_forge.Store.Events.{event_has_id}
use otel_forge.Store.Jobs.{job_has_id, of_event}
use otel_forge.Store.Rollup.{Counts, with_status, is_pending, count_jobs, count_pending}
use otel_forge.Store.Rollup.Status.{rolled_status, rolled_status_exact}
use otel_forge.Store.Rollup.Summary.{Summarises, RolledUp}
use otel_forge.Runner.Frame.{job_key}
use otel_forge.Runner.Conclusion.{HasEnded, Concluded}
use otel_forge.Runner.Others.{OthersSame}

-- The rows with the identifier of the job are of the event.
abbrev pub IsOf : ℕ → ℕ → List (ℕ × ℕ × ℕ) → Type 0
IsOf job_id event_id = All (λ k. (k.0 == job_id) ≡ true → k.1 ≡ event_id)

pub IsOf-jobs :
    (job_id event_id : ℕ) (jobs : List Job)
    → IsOf job_id event_id (map job_key jobs)
    → All (λ j. job_has_id job_id j ≡ true → j.event_id ≡ event_id) jobs
IsOf-jobs job_id event_id [] h = tt
IsOf-jobs job_id event_id (j ∷ jobs) h = (h.0, IsOf-jobs job_id event_id jobs h.1)

-- Both lists hold the same jobs of an event.
record SameCounts (id : ℕ) (jobs jobs' : List Job) : Type 0 where
  counts_same : count_jobs id jobs' ≡ count_jobs id jobs
  pending_same : count_pending id jobs' ≡ count_pending id jobs

Summarises-same :
    (jobs jobs' : List Job) (e : Event)
    → SameCounts e.id jobs jobs'
    → Summarises jobs e
    → Summarises jobs' e
Summarises-same jobs jobs' e s h =
    let was : rolled_status e.id jobs ≡ e.status =
      (rolled_status_exact e.id jobs e.status).0 h.status_fits in
    let is : rolled_status e.id jobs' ≡ e.status = rw (s.counts_same, s.pending_same) was in
    record {
      status_fits = (rolled_status_exact e.id jobs' e.status).1 is;
      verified_counted = h.verified_counted ∙ ap (λ (c : Counts). c.verified) (sym s.counts_same);
      failed_counted = h.failed_counted ∙ ap (λ (c : Counts). c.failed) (sym s.counts_same);
      total_counted = h.total_counted ∙ ap (λ (c : Counts). c.total) (sym s.counts_same);
    }

module _ (job_id event_id : ℕ) where
  abbrev other_job : Job → Bool
  other_job j = not (job_has_id job_id j)

  -- A count of jobs of another event sees only other jobs.
  count_others :
      (p : Job → Bool) (id : ℕ) (jobs : List Job)
      → (id == event_id) ≡ false
      → ((j : Job) → p j ≡ true → of_event id j ≡ true)
      → IsOf job_id event_id (map job_key jobs)
      → count p (select other_job jobs) ≡ count p jobs
  count_others p id jobs other h of =
      count-select p other_job jobs
        (All-map jobs (λ j k e. ground (arith, h j e, k)) (IsOf-jobs job_id event_id jobs of))

  same_count :
      (p : Job → Bool) (id : ℕ) (w w' : World)
      → (id == event_id) ≡ false
      → ((j : Job) → p j ≡ true → of_event id j ≡ true)
      → OthersSame job_id event_id w w'
      → IsOf job_id event_id (map job_key w.jobs)
      → IsOf job_id event_id (map job_key w'.jobs)
      → count p w'.jobs ≡ count p w.jobs
  same_count p id w w' other h o of of' =
      sym (count_others p id w'.jobs other h of')
      ∙ ap (count p) o.jobs_same
      ∙ count_others p id w.jobs other h of

  other_counts :
      (id : ℕ) (w w' : World)
      → (id == event_id) ≡ false
      → OthersSame job_id event_id w w'
      → IsOf job_id event_id (map job_key w.jobs)
      → IsOf job_id event_id (map job_key w'.jobs)
      → SameCounts id w.jobs w'.jobs
  unfolding count_jobs count_pending
  other_counts id w w' other o of of' = record {
    counts_same =
        rw
          (
            same_count (with_status JobStatus.verified id) id w w' other (λ j e. ground arith) o of
                of',
            same_count (with_status JobStatus.failed id) id w w' other (λ j e. ground arith) o of
                of',
            same_count (of_event id) id w w' other (λ j e. e) o of of',
          )
          refl;
    pending_same = same_count (is_pending id) id w w' other (λ j e. ground arith) o of of';
  }

  ended_elsewhere :
      (id : ℕ) (w w' : World)
      → (id == job_id) ≡ false
      → OthersSame job_id event_id w w'
      → All (λ j. job_has_id id j ≡ true → HasEnded j) w.jobs
      → All (λ j. job_has_id id j ≡ true → HasEnded j) w'.jobs
  ended_elsewhere id w w' other o h =
      All-map w'.jobs (λ j k e. k (ground arith) e)
        (select-All (λ j. job_has_id id j ≡ true → HasEnded j) other_job w'.jobs
          (subst (All (λ j. job_has_id id j ≡ true → HasEnded j)) (sym o.jobs_same)
            (All-select _ other_job w.jobs h)))

  rolled_kept :
      (id : ℕ) (w w' : World)
      → (id == event_id) ≡ false
      → OthersSame job_id event_id w w'
      → SameCounts id w.jobs w'.jobs
      → RolledUp id w.db
      → RolledUp id w'.db
  rolled_kept id w w' other o same h =
      All-map w'.events
        (λ e k is_it.
          let here = (==_iff e.id id).0 is_it in
          Summarises-same w.jobs w'.jobs e (rw here same) (k (ground arith) is_it))
        (select-All (λ e. event_has_id id e ≡ true → Summarises w.jobs e)
          (λ e. not (event_has_id event_id e)) w'.events
          (subst (All (λ e. event_has_id id e ≡ true → Summarises w.jobs e)) (sym o.events_same)
            (All-select _ (λ e. not (event_has_id event_id e)) w.events h)))

  pub ended-kept :
      (id : ℕ) (w w' : World)
      → OthersSame job_id event_id w w'
      → Concluded job_id event_id w'
      → All (λ j. job_has_id id j ≡ true → HasEnded j) w.jobs
      → All (λ j. job_has_id id j ≡ true → HasEnded j) w'.jobs
  ended-kept id w w' o now h = elim (Bool-cases (id == job_id)) [
    | inl same ↦ (let e = (==_iff id job_id).0 same in rw e now.ended)
    | inr other ↦ ended_elsewhere id w w' other o h
  ]

  -- What has been concluded, is still, or again.
  pub Concluded-kept :
      (id event : ℕ) (w w' : World)
      → OthersSame job_id event_id w w'
      → map job_key w'.jobs ≡ map job_key w.jobs
      → IsOf job_id event_id (map job_key w.jobs)
      → Concluded job_id event_id w'
      → Concluded id event w
      → Concluded id event w'
  Concluded-kept id event w w' o keys of now h = record {
    ended = ended-kept id w w' o now h.ended;
    rolled = elim (Bool-cases (event == event_id)) [
      | inl same ↦ (let e = (==_iff event event_id).0 same in rw e now.rolled)
      | inr other ↦
          rolled_kept event w w' other o (other_counts event w w' other o of (rw keys of)) h.rolled
    ];
  }
