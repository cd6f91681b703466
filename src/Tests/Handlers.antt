-- ===== src/Tests/Handlers.antt =====
-- The theorems on the handlers at concrete inputs.
use otel_forge.Prelude.{ℕ, ◌≡◌, ◌==◌, refl, none, some, [], ◌∷◌, first, select, order_by}
use otel_forge.Models.{TaskType, EventDetail, Event, requires_config}
use otel_forge.Action.{ok, ◌>>=◌}
use otel_forge.Store.Users.{user_owns_instance}
use otel_forge.Store.Events.{
  event_has_id, insert_event, link_instance, insert_job, insert_jobs, create_event_with_jobs,
  get_event, update_event_status,
}
use otel_forge.Store.Events.Query.{newer}
use otel_forge.Store.Jobs.{get_job, list_jobs_for_event, fill_checks, list_checks_for_job}
use otel_forge.Queue.{publish, enqueue}
use otel_forge.Service.{validate, check_owned, publish_all, launch}
use otel_forge.Handlers.Replies.{json}
use otel_forge.Handlers.Events.{
  EventQuery, list, get, get_known, rollback_input, rollback_known, rollback_allowed, rollback_job,
}
use otel_forge.Handlers.Access.{MayUse, get_access, list_own_events}
use otel_forge.Handlers.Rollback.{RollbackLaunched, rollback_job_launches}
use otel_forge.Tests.Data.{calm, world, alice, restart_all, waiting, node}

abbrev shown : EventDetail
shown = record {
  event = restart_all;
  instance_ids = 5 ∷ [];
  jobs =
      record {
        job = waiting;
        instance_name = "node";
        instance_host = "10.0.0.5";
        instance_port = node.port;
        checks = [];
      }
      ∷ [];
}

abbrev ok_status : ℕ
ok_status = 200

abbrev accepted_status : ℕ
accepted_status = 202

got_10 : (get alice 10 calm world).0 ≡ ok (json 200 shown)
unfolding get get_event get_known list_jobs_for_event fill_checks list_checks_for_job ◌>>=◌
got_10 = refl

get_access_example :
    (ok_status ≡ 200)
    × MayUse alice shown.event
    × (first (event_has_id 10) world.events ≡ some shown.event)
get_access_example = get_access alice 10 calm world 200 shown got_10

abbrev all_failed : EventQuery
all_failed = record { launcher_email = ""; status = "FAILED"; task_type = ""; from = ""; to = "" }

list_own_events_example :
    (list (λ s. none) alice all_failed calm world).0
    ≡ ok (json 200 (order_by newer (select (λ (e : Event). e.owner_id == 1) world.events)))
list_own_events_example = list_own_events (λ s. none) alice all_failed calm world refl refl

abbrev rollback_5 : EventDetail
rollback_5 = record {
  event = record restart_all {
    id = 5;
    name = "Rollback restart";
    task_type = TaskType.rollback;
    related_event_id = some 10;
    rollback_scope = some "instance";
    created_at = 5;
  };
  instance_ids = 5 ∷ [];
  jobs = [];
}

rolled_now : (rollback_job alice 10 20 calm world).0 ≡ ok (json 202 rollback_5)
unfolding rollback_job rollback_allowed rollback_known rollback_input get_event get_job
    otel_forge.Service.create validate check_owned user_owns_instance launch create_event_with_jobs
    insert_event insert_jobs link_instance insert_job update_event_status publish_all publish
    enqueue ◌>>=◌ requires_config
rolled_now = refl

rollback_job_launches_example :
    (accepted_status ≡ 202)
    × RollbackLaunched alice 10 20 rollback_5 calm world (rollback_job alice 10 20 calm world).1
rollback_job_launches_example =
    rollback_job_launches alice 10 20 calm world 202 rollback_5 rolled_now
