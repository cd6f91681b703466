-- ===== src/System/Known.antt =====
-- Every message on the queues is of a job in the tables, in every state that the processes reach.
use otel_forge.Prelude.{ℕ, ◌≡◌, refl, ap, [], ◌∷◌, ◌++◌, map, All-map}
use otel_forge.Models.{User}
use otel_forge.Action.{World, modify_db}
use otel_forge.Action.Rules.{Does}
use otel_forge.Handlers.Ownership.{KeepsOthers, Writes-weaken}
use otel_forge.Runner.Frame.{job_key}
use otel_forge.Pool.{Pool}
use otel_forge.System.{Step, request, turn, seeding, Reach, at_start, then_step}
use otel_forge.System.Messages.{Tracks, Tracks-Frame, same-Tracks}
use otel_forge.System.Sending.{OnlyReads-Tracks, create-Tracks, rerun_failed-Tracks, clone-Tracks}
use otel_forge.System.Deliveries.{PoolKnown, Turn-PoolKnown}
use otel_forge.System.Seeding.{seed-Does}
use otel_forge.System.Requests.{Operations, serve-Does}

KeepsOthers-Tracks : (owner_id : ℕ) (u v : World) → KeepsOthers owner_id u v → Tracks u v
KeepsOthers-Tracks owner_id u v k =
    same-Tracks u v (ap (map job_key) k.jobs_same) k.ready_same k.dead_same

operations : Operations Tracks
operations = record {
  reads = OnlyReads-Tracks;
  writes = λ owner_id. Writes-weaken owner_id (KeepsOthers-Tracks owner_id);
  creates = create-Tracks;
  reruns = rerun_failed-Tracks;
  clones = clone-Tracks;
}

insert_user-Tracks :
    (u : User) → Does Tracks (modify_db (λ d. record d { users = d.users ++ u ∷ [] }))
unfolding modify_db
insert_user-Tracks u = record { at = λ env w. same-Tracks w _ refl refl refl }

-- A step of another process, which leaves the goroutines where they are.
beside :
    (s : Pool) (w : World) → Tracks s.world w → PoolKnown s → PoolKnown (record s { world = w })
beside s w t k = record {
  queues = t.tracks k.queues;
  unsettled = All-map s.unsettled (λ d. t.still_known d.body) k.unsettled;
}

Step-PoolKnown : (c : ℕ) (s s' : Pool) → Step c s s' → PoolKnown s → PoolKnown s'
Step-PoolKnown c s _ (request settings header r env _) k =
    beside s _ ((serve-Does Tracks-Frame operations settings header r).at env s.world) k
Step-PoolKnown c s s' (turn t) k = Turn-PoolKnown c s s' t k
Step-PoolKnown c s _ (seeding getenv email password role env _) k =
    beside s _
      ((seed-Does Tracks-Frame insert_user-Tracks getenv email password role).at env s.world) k

-- However requests, turns of the worker's goroutines and seedings follow one another from empty
-- queues and a worker without deliveries, and whichever calls fail and channels close, every
-- message that can be read, on the main queue, on the dead-letter queue or unsettled in the worker,
-- names a job of the tables, with its event and its instance.
pub messages_name_jobs :
    (concurrency : ℕ) (start s : Pool)
    → start.world.ready ≡ []
    → start.world.dead ≡ []
    → start.unsettled ≡ []
    → Reach concurrency start s
    → PoolKnown s
messages_name_jobs c start _ none_ready none_dead none_taken at_start = record {
  queues = record { ready_known = rw none_ready tt; dead_known = rw none_dead tt };
  unsettled = rw none_taken tt;
}
messages_name_jobs c start _ none_ready none_dead none_taken (then_step r s) =
    Step-PoolKnown c _ _ s (messages_name_jobs c start _ none_ready none_dead none_taken r)
