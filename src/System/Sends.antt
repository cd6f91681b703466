-- ===== src/System/Sends.antt =====
-- Requests and seedings take no message from a queue: they add to the main queue at most.
use otel_forge.Prelude.{ℕ, ◌≡◌, ◌∙◌, refl, sym, Bool, List, [], ◌∷◌, ◌++◌}
use mathlib.Core.List.{append-nil, append_assoc}
use otel_forge.Models.{User, TaskType, EventStatus, Job}
use otel_forge.Action.{World, Delivery, modify_db}
use otel_forge.Action.Rules.{Does-weaken, Frame, Does, does_rules}
use otel_forge.Store.Events.{CreateEventParams, create_event_with_jobs, update_event_status}
use otel_forge.Store.Events.Quiet.{create_event_with_jobs-KeepsQueues}
use otel_forge.Queue.{publish, enqueue}
use otel_forge.Queue.Progress.{KeepsQueues}
use otel_forge.Service.{CreateInput, publish_all, launch, create, rerun_failed, clone}
use otel_forge.Service.Checks.{OnlyReads, validate-OnlyReads}
use otel_forge.Service.Rerun.{get_event-OnlyReads, user_owns_event-OnlyReads}
use otel_forge.Handlers.Ownership.{KeepsOthers, Writes-weaken}
use otel_forge.Runner.Frame.{KeepsKeys}
use otel_forge.Runner.Untouched.Calls.{update_event_status-Does}
use otel_forge.System.Sending.{reset_failed_jobs-KeepsKeys}
use otel_forge.System.Requests.{Operations}

pub record Sends (w w' : World) : Type 0 where
  pub more : List Delivery
  pub ready_then : w'.ready ≡ w.ready ++ more
  pub dead_same : w'.dead ≡ w.dead

quiet-Sends : (w w' : World) → w'.ready ≡ w.ready → w'.dead ≡ w.dead → Sends w w'
quiet-Sends w w' ready dead = record {
  more = [];
  ready_then = ready ∙ sym (append-nil w.ready);
  dead_same = dead;
}

pub Sends-Frame : Frame Sends
Sends-Frame = record {
  same = λ w. quiet-Sends w w refl refl;
  then_ = λ u v w h k. record {
    more = h.more ++ k.more;
    ready_then = k.ready_then ∙ rw h.ready_then (simp append_assoc);
    dead_same = k.dead_same ∙ h.dead_same;
  };
  counted = λ w n. quiet-Sends w _ refl refl;
}

OnlyReads-Sends : (u v : World) → OnlyReads u v → Sends u v
OnlyReads-Sends u v r = quiet-Sends u v r.ready_same r.dead_same

KeepsKeys-Sends : (u v : World) → KeepsKeys u v → Sends u v
KeepsKeys-Sends u v k = quiet-Sends u v k.ready_same k.dead_same

KeepsQueues-Sends : (u v : World) → KeepsQueues u v → Sends u v
KeepsQueues-Sends u v k = quiet-Sends u v k.ready_same k.dead_same

KeepsOthers-Sends : (id : ℕ) (u v : World) → KeepsOthers id u v → Sends u v
KeepsOthers-Sends id u v k = quiet-Sends u v k.ready_same k.dead_same

enqueue-Sends : (d : Delivery) → Does Sends (enqueue d)
unfolding enqueue
enqueue-Sends d = record {
  at = λ env w. record { more = d ∷ []; ready_then = refl; dead_same = refl };
}

ruleset sending = (does_rules, Sends-Frame, enqueue-Sends)

publish_all-Sends : (task : TaskType) (jobs : List Job) → Does Sends (publish_all task jobs)
unfolding publish_all publish
publish_all-Sends task [] = search sending
publish_all-Sends task (job ∷ jobs) =
    let rest = publish_all-Sends task jobs in search sending depth 14

status-Sends : (id : ℕ) (s : EventStatus) → Does Sends (update_event_status id s)
status-Sends id s = Does-weaken _ KeepsKeys-Sends (update_event_status-Does id s)

inserts-Sends : (p : CreateEventParams) → Does Sends (create_event_with_jobs p)
inserts-Sends p = Does-weaken _ KeepsQueues-Sends (create_event_with_jobs-KeepsQueues p)

create-Sends : (i : CreateInput) → Does Sends (create i)
unfolding create launch
create-Sends i =
    let checked = Does-weaken _ OnlyReads-Sends (validate-OnlyReads i) in
    search (sending, inserts-Sends, status-Sends, publish_all-Sends) depth 20

rerun_failed-Sends : (id owner_id : ℕ) (admin : Bool) → Does Sends (rerun_failed id owner_id admin)
unfolding rerun_failed
rerun_failed-Sends id owner_id admin =
    let owns = Does-weaken _ OnlyReads-Sends (user_owns_event-OnlyReads owner_id id) in
    let got = Does-weaken _ OnlyReads-Sends (get_event-OnlyReads id) in
    let resets = Does-weaken _ KeepsKeys-Sends (reset_failed_jobs-KeepsKeys id) in
    search (sending, publish_all-Sends) depth 20

clone-Sends : (id owner_id : ℕ) (overrides : CreateInput) → Does Sends (clone id owner_id overrides)
unfolding clone
clone-Sends id owner_id overrides =
    let owns = Does-weaken _ OnlyReads-Sends (user_owns_event-OnlyReads owner_id id) in
    let got = Does-weaken _ OnlyReads-Sends (get_event-OnlyReads id) in
    search (sending, create-Sends) depth 20

pub operations : Operations Sends
operations = record {
  reads = OnlyReads-Sends;
  writes = λ owner_id. Writes-weaken owner_id (KeepsOthers-Sends owner_id);
  creates = create-Sends;
  reruns = rerun_failed-Sends;
  clones = clone-Sends;
}

pub insert_user-Sends :
    (u : User) → Does Sends (modify_db (λ d. record d { users = d.users ++ u ∷ [] }))
unfolding modify_db
insert_user-Sends u = record { at = λ env w. quiet-Sends w _ refl refl }
