-- ===== src/System/Finished.antt =====
-- A new event, from the request to the last of its jobs.
use otel_forge.Prelude.{
  ℕ, ◌≡◌, ◌∙◌, sym, ap, subst, false, ==_iff, is_empty, refl, some, none, List, [], ◌∷◌, map,
  map-append, All, All-map, All-append, All-after, exists, length, arith,
}
use otel_forge.Models.{Bytes, TaskType, Job, Event, EventDetail}
use otel_forge.Action.{Env, World, Delivery, ok}
use otel_forge.Store.Events.{event_has_id}
use otel_forge.Store.Events.Insertion.{IsFresh}
use otel_forge.Store.Rollup.Summary.{RolledUp}
use otel_forge.Queue.{consume}
use otel_forge.Service.{CreateInput, create}
use otel_forge.Service.Launch.{delivery_of, create_launches}
use otel_forge.Runner.Frame.{job_key, event_key}
use otel_forge.Runner.Liveness.{NothingFails}
use otel_forge.Runner.Worker.{work, consume_keys}
use otel_forge.Pool.{Pool}
use otel_forge.System.{Reach}
use otel_forge.System.Owners.{owner_of, owner_of-new, OneOwner}
use otel_forge.System.Launches.{create-Keeps}
use otel_forge.System.Sending.{create-Tracks}
use otel_forge.System.Identifiers.{create-Separates}
use otel_forge.System.Serving.{Sound, Reach-Sound}
use otel_forge.System.Completion.{Served, consume-serves}
use otel_forge.System.Outcome.{Ends, every, Ends-ended, Finished, Finished_lem}

create-Sound : (i : CreateInput) (env : Env) (w : World) → Sound w → Sound (create i env w).1
create-Sound i env w h = record {
  one_owner = ((create-Keeps i).at env w).keeps h.one_owner;
  known = ((create-Tracks i).at env w).tracks h.known;
  distinct = ((create-Separates i).at env w).separates h.distinct;
}

-- The event has no job yet, where its identifier is unused.
owner_of-unused :
    (id : ℕ) (events : List Event)
    → exists (event_has_id id) events ≡ false
    → owner_of id (map event_key events) ≡ none
owner_of-unused id [] h = refl
owner_of-unused id (e ∷ events) h = ground (arith, owner_of-unused id events)

old_jobs-Ends :
    (id : ℕ) (events : List Event) (is : List (ℕ × ℕ)) (u : World) (keys : List (ℕ × ℕ × ℕ))
    → exists (event_has_id id) events ≡ false
    → All (OneOwner (map event_key events) is) keys
    → All (Ends id u) keys
old_jobs-Ends id events is u keys unused owners =
    All-map keys
      (λ k one. every u.jobs (λ j e.
        (let same : k.1 ≡ id = (==_iff k.1 id).0 e in
          let nobody = owner_of-unused id events unused in
          let somebody : owner_of id (map event_key events) ≡ some one.owner =
            rw (← same) one.of_event in
          absurd cc)))
      owners

new_jobs-Ends :
    (task : TaskType) (id : ℕ) (u : World) (jobs : List Job)
    → All (λ (d : Delivery). Served d.body u) (map (delivery_of task) jobs)
    → All (Ends id u) (map job_key jobs)
new_jobs-Ends task id u [] h = tt
new_jobs-Ends task id u (j ∷ jobs) (h, rest) =
    (All-map u.jobs (λ k ended _. ended) h.ended, new_jobs-Ends task id u jobs rest)

-- Some job of the event is served, so its row is rolled up.
rolled_up_lem :
    (task : TaskType) (id : ℕ) (u : World) (jobs : List Job) (iids : List ℕ)
    → is_empty iids ≡ false
    → map (λ (j : Job). j.instance_id) jobs ≡ iids
    → All (IsFresh id) jobs
    → All (λ (d : Delivery). Served d.body u) (map (delivery_of task) jobs)
    → RolledUp id u.db
rolled_up_lem task id u [] iids some_iid order fresh served = absurd (cc (order, some_iid))
rolled_up_lem task id u (j ∷ jobs) iids some_iid order (fresh, _) (served, _) =
    subst (λ i. RolledUp i u.db) fresh.event_same served.rolled

-- Take a state that the processes have reached from tables without jobs, empty queues and a worker
-- without deliveries, and a `Create` that returns an event there. Where no call of the worker fails
-- from then on, the refusal of a text by a column among the failures, and the status with which a
-- remote command exits fits an INT, as many deliveries as there are messages empty the main queue,
-- whatever else the nodes answer; and then every job of the event has ended, as verified or as failed, and the event's row
-- has a final status, which with its counts is what the jobs call for.
pub created_event_ends :
    (concurrency : ℕ) (start s : Pool) (i : CreateInput) (env : Env) (ev : EventDetail)
    (key : Bytes) (env' : Env)
    → start.world.jobs ≡ []
    → start.world.ready ≡ []
    → start.world.dead ≡ []
    → start.unsettled ≡ []
    → Reach concurrency start s
    → (create i env s.world).0 ≡ ok ev
    → NothingFails env'
    → let v = (create i env s.world).1 in
      let u = (consume (length v.ready) (work key) env' v).1 in (u.ready ≡ []) × Finished ev.id u
created_event_ends c start s i env ev key env' no_jobs none_ready none_dead none_taken reached made
      nf =
    let w = s.world in
    let sound = Reach-Sound c start s no_jobs none_ready none_dead none_taken reached in
    let v = (create i env w).1 in
    let (checked, l) = create_launches i env w ev made in
    let (empty, served, _, _) =
      consume-serves key env' nf v.ready v refl (create-Sound i env w sound) in
    let u = (consume (length v.ready) (work key) env' v).1 in
    let same = consume_keys key (length v.ready) env' v in
    let new_served =
      All-after (λ (d : Delivery). Served d.body u) w.ready (map (delivery_of i.task_type) l.jobs)
        (subst (All (λ (d : Delivery). Served d.body u)) l.ready_then served) in
    let ends : All (Ends ev.id u) (map job_key u.jobs) =
      subst (All (Ends ev.id u))
        (sym (map-append job_key w.jobs l.jobs)
          ∙ ap (map job_key) (sym l.jobs_then)
          ∙ sym same.job_keys)
        (All-append (Ends ev.id u) (map job_key w.jobs) (map job_key l.jobs)
          (old_jobs-Ends ev.id w.events _ u (map job_key w.jobs) l.id_unused sound.one_owner)
          (new_jobs-Ends i.task_type ev.id u l.jobs new_served)) in
    let ended = Ends-ended ev.id u ends in
    let there =
      ap (owner_of ev.id) same.event_keys
      ∙ ap (λ es. owner_of ev.id (map event_key es)) l.events_then
      ∙ owner_of-new ev.id w.events ev.event l.id_unused refl in
    let rolled =
      rolled_up_lem i.task_type ev.id u l.jobs i.instance_ids checked.some_instance l.in_order
        l.all_fresh new_served in
    (empty, Finished_lem ev.id u there rolled ended)
