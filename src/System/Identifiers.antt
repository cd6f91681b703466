-- ===== src/System/Identifiers.antt =====
-- The identifiers of the jobs: no two rows have the same, in every state that the processes reach.
use otel_forge.Prelude.{ℕ, ◌≡◌, ap, refl, Bool, List, [], ◌∷◌, ◌++◌, map}
use otel_forge.Models.{User, TaskType, EventStatus, Job}
use otel_forge.Action.{World, Db, Delivery, modify_db}
use otel_forge.Action.Rules.{Does-weaken, Does}
use otel_forge.Store.Events.{update_event_status}
use otel_forge.Queue.{publish, enqueue}
use otel_forge.Service.{CreateInput, publish_all, launch, create, rerun_failed, clone}
use otel_forge.Service.Checks.{OnlyReads, validate-OnlyReads}
use otel_forge.Service.Rerun.{get_event-OnlyReads, user_owns_event-OnlyReads}
use otel_forge.Handlers.Ownership.{KeepsOthers, Writes-weaken}
use otel_forge.Runner.Frame.{KeepsKeys, job_key}
use otel_forge.Runner.Untouched.Calls.{update_event_status-Does}
use otel_forge.Pool.{Pool}
use otel_forge.Pool.Keys.{Turn-SameKeys}
use otel_forge.System.{Step, request, turn, seeding, Reach, at_start, then_step}
use otel_forge.System.Sending.{reset_failed_jobs-KeepsKeys}
use otel_forge.System.Seeding.{seed-Does}
use otel_forge.System.Requests.{Operations, serve-Does}
use otel_forge.System.Distinct.{
  JobsDistinct, Separates, Separates-Frame, keys-Separates, modify-Separates, separating,
  create_event_with_jobs-Separates,
}

KeepsKeys-Separates : (u v : World) → KeepsKeys u v → Separates u v
KeepsKeys-Separates u v k = keys-Separates u v k.keys_same.job_keys

OnlyReads-Separates : (u v : World) → OnlyReads u v → Separates u v
OnlyReads-Separates u v r = keys-Separates u v (ap (λ (d : Db). map job_key d.jobs) r.db_same)

KeepsOthers-Separates : (id : ℕ) (u v : World) → KeepsOthers id u v → Separates u v
KeepsOthers-Separates id u v k = keys-Separates u v (ap (map job_key) k.jobs_same)

enqueue-Separates : (d : Delivery) → Does Separates (enqueue d)
unfolding enqueue
enqueue-Separates d = record { at = λ env w. keys-Separates w _ refl }

publish_all-Separates : (task : TaskType) (jobs : List Job) → Does Separates (publish_all task jobs)
unfolding publish_all publish
publish_all-Separates task [] = search separating
publish_all-Separates task (job ∷ jobs) =
    let rest = publish_all-Separates task jobs in search (separating, enqueue-Separates) depth 14

status-Separates : (id : ℕ) (s : EventStatus) → Does Separates (update_event_status id s)
status-Separates id s = Does-weaken _ KeepsKeys-Separates (update_event_status-Does id s)

pub create-Separates : (i : CreateInput) → Does Separates (create i)
unfolding create launch
create-Separates i =
    let checked = Does-weaken _ OnlyReads-Separates (validate-OnlyReads i) in
    search (separating, create_event_with_jobs-Separates, status-Separates, publish_all-Separates)
      depth 20

pub rerun_failed-Separates :
    (id owner_id : ℕ) (admin : Bool) → Does Separates (rerun_failed id owner_id admin)
unfolding rerun_failed
rerun_failed-Separates id owner_id admin =
    let owns = Does-weaken _ OnlyReads-Separates (user_owns_event-OnlyReads owner_id id) in
    let got = Does-weaken _ OnlyReads-Separates (get_event-OnlyReads id) in
    let resets = Does-weaken _ KeepsKeys-Separates (reset_failed_jobs-KeepsKeys id) in
    search (separating, publish_all-Separates) depth 20

clone-Separates :
    (id owner_id : ℕ) (overrides : CreateInput) → Does Separates (clone id owner_id overrides)
unfolding clone
clone-Separates id owner_id overrides =
    let owns = Does-weaken _ OnlyReads-Separates (user_owns_event-OnlyReads owner_id id) in
    let got = Does-weaken _ OnlyReads-Separates (get_event-OnlyReads id) in
    search (separating, create-Separates) depth 20

operations : Operations Separates
operations = record {
  reads = OnlyReads-Separates;
  writes = λ owner_id. Writes-weaken owner_id (KeepsOthers-Separates owner_id);
  creates = create-Separates;
  reruns = rerun_failed-Separates;
  clones = clone-Separates;
}

insert_user-Separates :
    (u : User) → Does Separates (modify_db (λ d. record d { users = d.users ++ u ∷ [] }))
insert_user-Separates u = modify-Separates _ (λ d. refl)

Step-Separates : (c : ℕ) (s s' : Pool) → Step c s s' → Separates s.world s'.world
Step-Separates c s _ (request settings header r env _) =
    (serve-Does Separates-Frame operations settings header r).at env s.world
Step-Separates c s s' (turn t) = keys-Separates s.world s'.world (Turn-SameKeys c s s' t).job_keys
Step-Separates c s _ (seeding getenv email password role env _) =
    (seed-Does Separates-Frame insert_user-Separates getenv email password role).at env s.world

-- However the steps follow one another from tables without jobs, no two jobs have the same
-- identifier.
pub job_ids_distinct :
    (c : ℕ) (start s : Pool) → start.world.jobs ≡ [] → Reach c start s → JobsDistinct s.world
job_ids_distinct c start _ none_yet at_start = rw none_yet tt
job_ids_distinct c start _ none_yet (then_step r s) =
    (Step-Separates c _ _ s).separates (job_ids_distinct c start _ none_yet r)
