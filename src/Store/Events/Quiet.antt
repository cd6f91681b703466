-- ===== src/Store/Events/Quiet.antt =====
-- `CreateEventWithJobs` sends no message.
use otel_forge.Prelude.{ℕ, ◌≡◌, ◌∙◌, refl, List, [], ◌∷◌}
use otel_forge.Action.{World, Db, Action, Result, ok, err, settle, rolled_back, modify_db}
use otel_forge.Action.Rules.{Frame, Does, does_rules}
use otel_forge.Store.Events.{
  CreateEventParams, insert_event, link_instance, insert_job, insert_jobs, create_event_with_jobs,
}
use otel_forge.Queue.Progress.{KeepsQueues}

KeepsQueues-Frame : Frame KeepsQueues
KeepsQueues-Frame = record {
  same = λ w. record { ready_same = refl; dead_same = refl };
  then_ = λ u v w h k. record {
    ready_same = k.ready_same ∙ h.ready_same;
    dead_same = k.dead_same ∙ h.dead_same;
  };
  counted = λ w n. record { ready_same = refl; dead_same = refl };
}

modify_db-KeepsQueues : (f : Db → Db) → Does KeepsQueues (modify_db f)
unfolding modify_db
modify_db-KeepsQueues f = record { at = λ env w. record { ready_same = refl; dead_same = refl } }

settle-queues :
    {A : Type 0} (db : Db) (o : Result A × World)
    → ((settle db o).1.ready ≡ o.1.ready) × ((settle db o).1.dead ≡ o.1.dead)
settle-queues db (ok a, w) = (refl, refl)
settle-queues db (err e, w) = (refl, refl)

rolled_back-KeepsQueues :
    {A : Type 0} (m : Action A) → Does KeepsQueues m → Does KeepsQueues (rolled_back m)
unfolding rolled_back
rolled_back-KeepsQueues m d = record {
  at = λ env w.
      let (ready, dead) = settle-queues w.db (m env w) in
      record {
        ready_same = ready ∙ (d.at env w).ready_same;
        dead_same = dead ∙ (d.at env w).dead_same;
      };
}

ruleset storing = (does_rules, KeepsQueues-Frame, modify_db-KeepsQueues, rolled_back-KeepsQueues)

insert_event-KeepsQueues : (p : CreateEventParams) → Does KeepsQueues (insert_event p)
unfolding insert_event
insert_event-KeepsQueues p = search storing depth 20

link_instance-KeepsQueues : (e i : ℕ) → Does KeepsQueues (link_instance e i)
unfolding link_instance
link_instance-KeepsQueues e i = search storing depth 20

insert_job-KeepsQueues : (e i : ℕ) → Does KeepsQueues (insert_job e i)
unfolding insert_job
insert_job-KeepsQueues e i = search storing depth 20

insert_jobs-KeepsQueues : (e : ℕ) (iids : List ℕ) → Does KeepsQueues (insert_jobs e iids)
unfolding insert_jobs
insert_jobs-KeepsQueues e [] = search storing
insert_jobs-KeepsQueues e (iid ∷ iids) =
    let rest = insert_jobs-KeepsQueues e iids in
    search (storing, link_instance-KeepsQueues, insert_job-KeepsQueues) depth 12

pub create_event_with_jobs-KeepsQueues :
    (p : CreateEventParams) → Does KeepsQueues (create_event_with_jobs p)
unfolding create_event_with_jobs
create_event_with_jobs-KeepsQueues p =
    search (storing, insert_event-KeepsQueues, insert_jobs-KeepsQueues) depth 14
