-- ===== src/System/Reached.antt =====
-- What holds in every state that the processes reach.
use otel_forge.Prelude.{
  ℕ, ◌≡◌, ◌∙◌, sym, subst, inl, inr, some, List, [], ◌∷◌, ◌++◌, map, All, ◌==◌, first, Bool-cases,
  arith,
}
use otel_forge.Models.{User, Event, Instance, Job}
use otel_forge.Action.{modify_db}
use otel_forge.Action.Rules.{Does}
use otel_forge.Store.Jobs.{job_has_id}
use otel_forge.Store.Events.{event_has_id}
use otel_forge.Store.Instances.{has_id}
use otel_forge.Runner.Frame.{job_key, event_key}
use otel_forge.Pool.{Pool}
use otel_forge.Pool.Keys.{Turn-SameKeys}
use otel_forge.System.{Step, request, turn, seeding, Reach, at_start, then_step}
use otel_forge.System.Owners.{owner_of, OneOwner, AllOneOwner, owner_of-first}
use otel_forge.System.Keeping.{
  Keeps, Keeps-Frame, keys-Keeps, db-Keeps, create_instance-Keeps, update_instance_ssh-Keeps,
  delete_instance-Keeps,
}
use otel_forge.System.Seeding.{seed-Does}
use otel_forge.System.Requests.{Operations, serve-Does}
use otel_forge.System.Launches.{create-Keeps, rerun_failed-Keeps, clone-Keeps}

insert_user-Keeps :
    (u : User) → Does Keeps (modify_db (λ d. record d { users = d.users ++ u ∷ [] }))
unfolding modify_db
insert_user-Keeps u = record { at = λ env w. record { keeps = λ a. a } }

operations : Operations Keeps
operations = record {
  reads = λ u v r. db-Keeps u v r.db_same;
  writes = λ owner_id. record {
    creates = create_instance-Keeps owner_id;
    updates = λ id. update_instance_ssh-Keeps id owner_id;
    deletes = λ id. delete_instance-Keeps id owner_id;
  };
  creates = create-Keeps;
  reruns = rerun_failed-Keeps;
  clones = clone-Keeps;
}

Step-Keeps : (c : ℕ) (s s' : Pool) → Step c s s' → Keeps s.world s'.world
Step-Keeps c s _ (request settings header r env _) =
    (serve-Does Keeps-Frame operations settings header r).at env s.world
Step-Keeps c s s' (turn t) = keys-Keeps s.world s'.world (Turn-SameKeys c s s' t)
Step-Keeps c s _ (seeding getenv email password role env _) =
    (seed-Does Keeps-Frame insert_user-Keeps getenv email password role).at env s.world

pub Reach-AllOneOwner :
    (c : ℕ) (start s : Pool) → start.world.jobs ≡ [] → Reach c start s → AllOneOwner s.world
Reach-AllOneOwner c start _ none_yet at_start = rw none_yet tt
Reach-AllOneOwner c start _ none_yet (then_step r s) =
    (Step-Keeps c _ _ s).keeps (Reach-AllOneOwner c start _ none_yet r)

pub job_OneOwner :
    (es is : List (ℕ × ℕ)) (id : ℕ) (jobs : List Job) {j : Job}
    → All (OneOwner es is) (map job_key jobs)
    → first (job_has_id id) jobs ≡ some j
    → OneOwner es is (job_key j)
job_OneOwner es is id [] a h = cc
job_OneOwner es is id (k ∷ jobs) {j} (a, rest) h = elim (Bool-cases (k.id == id)) [
  | inl here ↦ (let same : k ≡ j = ground arith in subst (λ x. OneOwner es is (job_key x)) same a)
  | inr other ↦ job_OneOwner es is id jobs {j = j} rest (ground arith)
]

pub owner_of-event :
    (id : ℕ) (xs : List Event) {row : Event}
    → first (event_has_id id) xs ≡ some row
    → owner_of id (map event_key xs) ≡ some row.owner_id
owner_of-event id [] h = cc
owner_of-event id (e ∷ xs) {row} h = elim (Bool-cases (e.id == id)) [
  | inl here ↦ ground arith
  | inr other ↦ rw other (owner_of-event id xs {row = row} (ground arith))
]

-- However requests, turns of the worker's goroutines and seedings follow one another from tables
-- without jobs, whichever calls fail and channels close, the worker finds for the identifier of a
-- job an instance and an event that belong to the same user: nobody's job runs on a node of another
-- user.
pub jobs_stay_with_owner :
    (concurrency : ℕ) (start s : Pool) (id : ℕ) (j : Job) (e : Event) (i : Instance)
    → start.world.jobs ≡ []
    → Reach concurrency start s
    → first (job_has_id id) s.world.jobs ≡ some j
    → first (event_has_id j.event_id) s.world.events ≡ some e
    → first (has_id j.instance_id) s.world.instances ≡ some i
    → i.owner_id ≡ e.owner_id
jobs_stay_with_owner c start s id j e i none_yet reached job event inst =
    let w = s.world in
    let one = job_OneOwner _ _ id w.jobs (Reach-AllOneOwner c start s none_yet reached) job in
    let of_event : some one.owner ≡ some e.owner_id =
      sym one.of_event ∙ owner_of-event j.event_id w.events event in
    let of_instance : some one.owner ≡ some i.owner_id =
      sym one.of_instance ∙ owner_of-first j.instance_id w.instances inst in
    cc
