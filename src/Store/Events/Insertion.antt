-- ===== src/Store/Events/Insertion.antt =====
-- What the loop of `CreateEventWithJobs` over the instances inserts.
use otel_forge.Prelude.{
  ℕ, ◌+◌, ◌≡◌, ◌∙◌, refl, sym, ap, subst, true, false, ◌==◌, none, List, [], ◌∷◌, ◌++◌, map, All,
  exists, arith,
}
use mathlib.Core.List.{append-nil, append_assoc}
use otel_forge.Models.{JobStatus, Instance, Job}
use otel_forge.Action.{Env, World, Result, ok, pure, ◌>>=◌}
use otel_forge.Action.Rules.{>>=-eq-ok}
use otel_forge.Store.Events.{link_instance, insert_job, insert_jobs}

-- A job as it is inserted.
pub record IsFresh (event_id : ℕ) (j : Job) : Type 0 where
  pub event_same : j.event_id ≡ event_id
  pub is_queued : j.status ≡ JobStatus.queued
  pub no_stdout : j.stdout ≡ none
  pub no_stderr : j.stderr ≡ none
  pub no_code : j.exit_code ≡ none
  pub not_started : j.started_at ≡ none
  pub not_finished : j.finished_at ≡ none

abbrev pub link_of : ℕ → ℕ → ℕ × ℕ
link_of event_id iid = (event_id, iid)

module _ (event_id : ℕ) where
  link_instance_ok :
      (iid : ℕ) (env : Env) (w : World)
      → (link_instance event_id iid env w).0 ≡ ok tt
      → ((link_instance event_id iid env w).1 ≡ record w {
        db = record w.db { event_instances = w.event_instances ++ (event_id, iid) ∷ [] };
        calls = w.calls + 1;
      })
        × (exists (λ (i : Instance). i.id == iid) w.instances ≡ true)
  unfolding link_instance ◌>>=◌
  link_instance_ok iid env w h = ground arith

  pub insert_job_ok :
      (iid : ℕ) (env : Env) (w : World) {j : Job}
      → (insert_job event_id iid env w).0 ≡ ok j
      → ((insert_job event_id iid env w).1
          ≡ record w { db = record w.db { jobs = w.jobs ++ j ∷ [] }; calls = w.calls + 1 })
        × IsFresh event_id j
        × (j.instance_id ≡ iid)
        × (exists (λ (k : Job). k.id == j.id) w.jobs ≡ false)
  unfolding insert_job ◌>>=◌
  insert_job_ok iid env w h = ground arith

  -- What the loop over the instances has done.
  pub record Inserted (iids : List ℕ) (jobs : List Job) (w w' : World) : Type 0 where
    pub db_then : w'.db ≡ record w.db {
      event_instances = w.event_instances ++ map (link_of event_id) iids;
      jobs = w.jobs ++ jobs;
    }
    pub ready_same : w'.ready ≡ w.ready
    pub dead_same : w'.dead ≡ w.dead
    pub sent_same : w'.sent ≡ w.sent
    pub all_fresh : All (IsFresh event_id) jobs
    pub in_order : map (λ (j : Job). j.instance_id) jobs ≡ iids
    pub targets_exist : All (λ iid. exists (λ (i : Instance). i.id == iid) w.instances ≡ true) iids

  -- The world after the two statements for one instance.
  abbrev one_more : ℕ → Job → World → World
  one_more iid j w =
      let u = record w {
        db = record w.db { event_instances = w.event_instances ++ (event_id, iid) ∷ [] };
        calls = w.calls + 1;
      } in
      record u { db = record u.db { jobs = u.jobs ++ j ∷ [] }; calls = u.calls + 1 }

  Inserted-cons :
      (iid : ℕ) (iids : List ℕ) (j : Job) (js : List Job) (w z : World)
      → exists (λ (i : Instance). i.id == iid) w.instances ≡ true
      → IsFresh event_id j
      → j.instance_id ≡ iid
      → Inserted iids js (one_more iid j w) z
      → Inserted (iid ∷ iids) (j ∷ js) w z
  Inserted-cons iid iids j js w z target fresh goes_to ih = record {
    db_then = ih.db_then ∙ simp append_assoc;
    ready_same = ih.ready_same;
    dead_same = ih.dead_same;
    sent_same = ih.sent_same;
    all_fresh = (fresh, ih.all_fresh);
    in_order = rw (goes_to, ih.in_order);
    targets_exist = (target, ih.targets_exist);
  }

  pub insert_jobs_ok :
      (iids : List ℕ) (env : Env) (w : World) {jobs : List Job}
      → (insert_jobs event_id iids env w).0 ≡ ok jobs
      → Inserted iids jobs w (insert_jobs event_id iids env w).1
  unfolding insert_jobs pure
  insert_jobs_ok [] env w {jobs} h =
      let none_made : [] ≡ jobs = ground arith in
      subst (λ js. Inserted [] js w w) none_made
        (record {
          db_then = simp append-nil;
          ready_same = refl;
          dead_same = refl;
          sent_same = refl;
          all_fresh = tt;
          in_order = refl;
          targets_exist = tt;
        })
  insert_jobs_ok (iid ∷ iids) env w {jobs} h =
      let (_, linked, h1, e1) =
        >>=-eq-ok (link_instance event_id iid)
          (λ _. insert_job event_id iid >>= λ j. insert_jobs event_id iids >>= λ js. pure (j ∷ js))
          env w h in
      let u = (link_instance event_id iid env w).1 in
      let (j, made, h2, e2) =
        >>=-eq-ok (insert_job event_id iid) (λ j. insert_jobs event_id iids >>= λ js. pure (j ∷ js))
          env u h1 in
      let v = (insert_job event_id iid env u).1 in
      let (js, rest_made, h3, e3) =
        >>=-eq-ok (insert_jobs event_id iids) (λ js. pure (j ∷ js)) env v h2 in
      let ih = insert_jobs_ok iids env v rest_made in
      let (u_is, target) = link_instance_ok iid env w linked in
      let (v_is, fresh, goes_to, _) = insert_job_ok iid env u made in
      let z = (insert_jobs event_id iids env v).1 in
      let v_known =
        v_is
        ∙ ap
            (λ (x : World). record x {
              db = record x.db { jobs = x.jobs ++ j ∷ [] };
              calls = x.calls + 1;
            })
            u_is in
      let joined : j ∷ js ≡ jobs = ground arith in
      subst (λ (o : Result (List Job) × World). Inserted (iid ∷ iids) jobs w o.1)
        (sym (e1 ∙ e2 ∙ e3))
        (subst (λ all. Inserted (iid ∷ iids) all w z) joined
          (Inserted-cons iid iids j js w z target fresh goes_to
            (subst (λ x. Inserted iids js x z) v_known ih)))
