-- ===== src/Runner/Handle.antt =====
-- The two facts about `Handle` on which the queue and the users rely: a nil result says that the
-- job has ended, and without faults of the database there is such a result.
use otel_forge.Prelude.{ℕ, ◌≡◌, ◌∙◌, ap, subst, ◌==◌, some, All-first, first, first-same_columns}
use otel_forge.Models.{Bytes, Job}
use otel_forge.Action.{Env, World, Result, ok, ◌>>=◌}
use otel_forge.Action.Rules.{>>=-eq-ok}
use otel_forge.Store.Events.{get_event}
use otel_forge.Store.Jobs.{job_has_id, get_job}
use otel_forge.Store.Rollup.Summary.{RolledUp}
use otel_forge.Runner.{work_on, handle}
use otel_forge.Runner.Frame.{job_key}
use otel_forge.Runner.Untouched.{handle_untouched}
use otel_forge.Runner.Others.{
  OthersSame, Others-Frame, get_job-Others, get_event-Others, work_on-Others,
}
use otel_forge.Runner.Conclusion.{HasEnded, Concluded, work_on-Ensures, get_event-id, get_job-first}

-- What `Handle` has done where it returned nil.
pub record Handled (job_id : ℕ) (job : Job) (w w' : World) : Type 0 where
  pub found : first (job_has_id job_id) w.jobs ≡ some job
  pub concluded : Concluded job_id job.event_id w'
  pub others_same : OthersSame job_id job.event_id w w'

pub handle-Handled :
    (key : Bytes) (job_id : ℕ) (env : Env) (w : World)
    → (handle key job_id env w).0 ≡ ok tt
    → (job : Job) × Handled job_id job w (handle key job_id env w).1
unfolding handle
handle-Handled key job_id env w h =
    let (job, got, h1, e1) =
      >>=-eq-ok (get_job job_id) (λ job. get_event job.event_id >>= work_on key job_id job) env w
        h in
    let u = (get_job job_id env w).1 in
    let (ev, got_event, h2, e2) =
      >>=-eq-ok (get_event job.event_id) (work_on key job_id job) env u h1 in
    let v = (get_event job.event_id env u).1 in
    let z = (work_on key job_id job ev env v).1 in
    let id = job.event_id in
    let same_event = get_event-id id env u got_event in
    let fr = Others-Frame job_id id in
    let at_end : (handle key job_id env w).1 ≡ z =
      ap (λ (o : Result (Unit {0}) × World). o.1) (e1 ∙ e2) in
    (
      job,
      rw at_end (record {
        found = get_job-first job_id env w got;
        concluded =
            subst (λ i. Concluded job_id i z) same_event
              ((work_on-Ensures key job_id job ev).at env v h2);
        others_same = fr.then_ w u z ((get_job-Others job_id id job_id).at env w) (
            fr.then_ u v z ((get_event-Others job_id id id).at env u) (
              subst (λ i. OthersSame job_id i v z) same_event
                ((work_on-Others key job_id job ev).at env v)));
      }),
    )

-- When `Handle` returns nil, whatever failed on the way, the job that it was called for is in the
-- tables before and after, with the same event and instance; it has ended, as verified with exit
-- code 0 or as failed with another; and the row of its event has the status and the counts that
-- the event's jobs call for.
pub handle_concludes :
    (key : Bytes) (job_id : ℕ) (env : Env) (w : World)
    → (handle key job_id env w).0 ≡ ok tt
    → let w' = (handle key job_id env w).1 in
      (job : Job) × (job' : Job) × (first (job_has_id job_id) w.jobs ≡ some job)
      × (first (job_has_id job_id) w'.jobs ≡ some job')
      × (job_key job' ≡ job_key job)
      × HasEnded job'
      × RolledUp job.event_id w'.db
handle_concludes key job_id env w h =
    let (job, done) = handle-Handled key job_id env w h in
    let kept = ((handle_untouched key job_id).at env w).keys_same in
    let w' = (handle key job_id env w).1 in
    let (job', found', same) =
      first-same_columns job_key (λ k. k.0 == job_id) w'.jobs w.jobs kept.job_keys done.found in
    (
      job,
      job',
      done.found,
      found',
      same,
      All-first HasEnded (job_has_id job_id) w'.jobs done.concluded.ended found',
      done.concluded.rolled,
    )
