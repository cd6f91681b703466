-- ===== src/Workers/Monotone.antt =====
-- What the statements on jobs do to the counts.
use otel_forge.Prelude.{
  ℕ, ◌≤◌, ◌≡◌, refl, inl, inr, String, Bool, true, List, [], ◌∷◌, All, All-map, count, update,
  Option-cases, Bool-cases, ltb, ◌^◌, arith,
}
use otel_forge.Models.{JobStatus, Job}
use otel_forge.Action.{Env, World, ◌>>=◌}
use otel_forge.Store.Jobs.{job_has_id, of_event, update_job_running, update_job_result}
use otel_forge.Store.Rollup.{with_status, is_pending, count_jobs, count_pending}
use otel_forge.Workers.{NotFinal}

module _ {A : Type 0} (p q : A → Bool) (f : A → A) where
  count-update_le :
      (xs : List A)
      → All (λ a. q a ≡ true → p (f a) ≡ true → p a ≡ true) xs
      → count p (update q f xs) ≤ count p xs
  count-update_le [] h = omega arith
  count-update_le (x ∷ xs) (h, hs) = ground (arith, h, count-update_le xs hs)

  count-update_ge :
      (xs : List A)
      → All (λ a. q a ≡ true → p a ≡ true → p (f a) ≡ true) xs
      → count p xs ≤ count p (update q f xs)
  count-update_ge [] h = omega arith
  count-update_ge (x ∷ xs) (h, hs) = ground (arith, h, count-update_ge xs hs)

-- The jobs of each event have stayed the same ones and have only come nearer to their end.
pub record Later (jobs jobs' : List Job) : Type 0 where
  pub total_same : (e : ℕ) → (count_jobs e jobs').total ≡ (count_jobs e jobs).total
  pub verified_le : (e : ℕ) → (count_jobs e jobs).verified ≤ (count_jobs e jobs').verified
  pub failed_le : (e : ℕ) → (count_jobs e jobs).failed ≤ (count_jobs e jobs').failed
  pub pending_le : (e : ℕ) → count_pending e jobs' ≤ count_pending e jobs

pub Later-refl : (jobs : List Job) → Later jobs jobs
Later-refl jobs = record {
  total_same = λ e. refl;
  verified_le = λ e. omega arith;
  failed_le = λ e. omega arith;
  pending_le = λ e. omega arith;
}

module _ (id : ℕ) (f : Job → Job) (same_event : (j : Job) → (f j).event_id ≡ j.event_id) where
  update-Later : (jobs : List Job) → NotFinal id jobs → Later jobs (update (job_has_id id) f jobs)
  unfolding count_jobs count_pending
  update-Later jobs h = record {
    total_same = λ e. omega (
      arith,
      count-update_le (of_event e) (job_has_id id) f jobs
          (All-map jobs (λ j _ here will. ground (arith, same_event j)) h),
      count-update_ge (of_event e) (job_has_id id) f jobs
          (All-map jobs (λ j _ here was. ground (arith, same_event j)) h),
    );
    verified_le = λ e.
        count-update_ge (with_status JobStatus.verified e) (job_has_id id) f jobs
          (All-map jobs (λ j not_final here was. ground (arith, not_final here)) h);
    failed_le = λ e.
        count-update_ge (with_status JobStatus.failed e) (job_has_id id) f jobs
          (All-map jobs (λ j not_final here was. ground (arith, not_final here)) h);
    pending_le = λ e.
        count-update_le (is_pending e) (job_has_id id) f jobs
          (All-map jobs (λ j not_final here will. ground (arith, not_final here, same_event j)) h);
  }

pub update_job_running-Later :
    (id : ℕ) (env : Env) (w : World)
    → NotFinal id w.jobs
    → Later w.jobs (update_job_running id env w).1.jobs
      × ((update_job_running id env w).1.events ≡ w.events)
unfolding update_job_running ◌>>=◌
update_job_running-Later id env w h = elim (Option-cases (env.fault w.calls)) [
  | inr (s, failed) ↦ rw failed (Later-refl w.jobs, refl)
  | inl fine ↦ rw fine (update-Later id _ (λ j. refl) w.jobs h, refl)
]

pub update_job_result-Later :
    (id : ℕ) (s : JobStatus) (out errors : String) (code : ℕ) (env : Env) (w : World)
    → NotFinal id w.jobs
    → Later w.jobs (update_job_result id s out errors code env w).1.jobs
      × ((update_job_result id s out errors code env w).1.events ≡ w.events)
unfolding update_job_result ◌>>=◌
update_job_result-Later id s out errors code env w h = elim (Option-cases (env.fault w.calls)) [
  | inr (e, failed) ↦ rw failed (Later-refl w.jobs, refl)
  | inl fine ↦ elim (Bool-cases (ltb code (2 ^ 31))) [
    | inl fits ↦ rw (fine, fits) (update-Later id _ (λ j. refl) w.jobs h, refl)
    | inr beyond ↦ rw (fine, beyond) (Later-refl w.jobs, refl)
  ]
]
