-- ===== src/System/Distinct.antt =====
-- The identifiers of the jobs, and what an insertion of jobs does to them.
use otel_forge.Prelude.{
  ℕ, ◌≡◌, ap, refl, inl, inr, false, ◌==◌, ==_sym, List, [], ◌∷◌, ◌++◌, map, map-append, exists,
  arith,
}
use otel_forge.Models.{Job}
use otel_forge.Action.{
  Env, World, Db, Action, Result, Error, ok, err, settle, rolled_back, modify_db, ◌>>=◌,
}
use otel_forge.Action.Rules.{Frame, Does, Result-cases, does_rules}
use otel_forge.Store.Events.{
  CreateEventParams, insert_event, link_instance, insert_job, insert_jobs, create_event_with_jobs,
}
use otel_forge.Store.Events.Insertion.{insert_job_ok}
use otel_forge.Runner.Frame.{job_key}

-- No identifier of a job stands twice.
abbrev pub AllDistinct : List (ℕ × ℕ × ℕ) → Type 0
AllDistinct [] = Unit
AllDistinct (k ∷ keys) = (exists (λ (x : ℕ × ℕ × ℕ). x.0 == k.0) keys ≡ false) × AllDistinct keys

abbrev pub JobsDistinct : World → Type 0
JobsDistinct w = AllDistinct (map job_key w.jobs)

pub record Separates (w w' : World) : Type 0 where
  pub separates : JobsDistinct w → JobsDistinct w'

pub Separates-Frame : Frame Separates
Separates-Frame = record {
  same = λ w. record { separates = λ a. a };
  then_ = λ u v w h k. record { separates = λ a. k.separates (h.separates a) };
  counted = λ w n. record { separates = λ a. a };
}

pub keys-Separates : (w w' : World) → map job_key w'.jobs ≡ map job_key w.jobs → Separates w w'
keys-Separates w w' same = record { separates = λ a. rw same a }

exists_last :
    (i : ℕ) (keys : List (ℕ × ℕ × ℕ)) (k : ℕ × ℕ × ℕ)
    → exists (λ (x : ℕ × ℕ × ℕ). x.0 == i) keys ≡ false
    → (k.0 == i) ≡ false
    → exists (λ (x : ℕ × ℕ × ℕ). x.0 == i) (keys ++ k ∷ []) ≡ false
exists_last i [] k h other = ground arith
exists_last i (x ∷ keys) k h other = ground (arith, exists_last i keys k)

AllDistinct-last :
    (jobs : List Job) (j : Job)
    → AllDistinct (map job_key jobs)
    → exists (λ (k : Job). k.id == j.id) jobs ≡ false
    → AllDistinct (map job_key jobs ++ job_key j ∷ [])
AllDistinct-last [] j a unused = (refl, tt)
AllDistinct-last (x ∷ jobs) j (a, rest) unused = (
  exists_last x.id (map job_key jobs) (job_key j) a (ground (arith, ==_sym x.id j.id)),
  AllDistinct-last jobs j rest (ground arith),
)

insert_job_err :
    (e iid : ℕ) (env : Env) (w : World) {x : Error}
    → (insert_job e iid env w).0 ≡ err x
    → (insert_job e iid env w).1.jobs ≡ w.jobs
unfolding insert_job ◌>>=◌
insert_job_err e iid env w h = ground arith

insert_job-Separates : (e iid : ℕ) → Does Separates (insert_job e iid)
insert_job-Separates e iid = record {
  at = λ env w. elim (Result-cases (insert_job e iid env w).0) [
    | inr (x, h) ↦ keys-Separates w _ (ap (map job_key) (insert_job_err e iid env w h))
    | inl (j, h) ↦
        (let (made, _, _, unused) = insert_job_ok e iid env w h in
          record {
            separates = λ a.
                rw (made, map-append job_key w.jobs (j ∷ [])) (AllDistinct-last w.jobs j a unused);
          })
  ];
}

settle-Separates :
    {A : Type 0} (w : World) (o : Result A × World)
    → Separates w o.1
    → Separates w (settle w.db o).1
settle-Separates w (ok a, u) s = s
settle-Separates w (err e, u) s = record { separates = λ a. a }

pub rolled_back-Separates :
    {A : Type 0} (m : Action A) → Does Separates m → Does Separates (rolled_back m)
unfolding rolled_back
rolled_back-Separates m d = record { at = λ env w. settle-Separates w (m env w) (d.at env w) }

-- A change of the tables that leaves the jobs alone.
pub modify-Separates :
    (f : Db → Db) → ((d : Db) → (f d).jobs ≡ d.jobs) → Does Separates (modify_db f)
unfolding modify_db
modify-Separates f h = record { at = λ env w. keys-Separates w _ (ap (map job_key) (h w.db)) }

pub ruleset separating = (does_rules, Separates-Frame, modify-Separates, rolled_back-Separates)

insert_event-Separates : (p : CreateEventParams) → Does Separates (insert_event p)
unfolding insert_event
insert_event-Separates p = search separating depth 20

link_instance-Separates : (e i : ℕ) → Does Separates (link_instance e i)
unfolding link_instance
link_instance-Separates e i = search separating depth 20

insert_jobs-Separates : (e : ℕ) (iids : List ℕ) → Does Separates (insert_jobs e iids)
unfolding insert_jobs
insert_jobs-Separates e [] = search separating
insert_jobs-Separates e (iid ∷ iids) =
    let rest = insert_jobs-Separates e iids in
    search (separating, link_instance-Separates, insert_job-Separates) depth 12

pub create_event_with_jobs-Separates :
    (p : CreateEventParams) → Does Separates (create_event_with_jobs p)
unfolding create_event_with_jobs
create_event_with_jobs-Separates p =
    search (separating, insert_event-Separates, insert_jobs-Separates) depth 14
