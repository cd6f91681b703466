-- ===== src/Tests/Completions.antt =====
-- The theorems on the composition of the service, the queue and the worker at concrete inputs.
use otel_forge.Prelude.{◌≡◌, refl, [], ◌∷◌, length}
use otel_forge.Models.{EventDetail, requires_config}
use otel_forge.Action.{World, ok, ◌>>=◌}
use otel_forge.Store.Users.{user_owns_instance}
use otel_forge.Store.Events.{
  insert_event, link_instance, insert_job, insert_jobs, create_event_with_jobs, update_event_status,
}
use otel_forge.Queue.{publish, enqueue, consume}
use otel_forge.Service.{validate, check_owned, publish_all, launch, create}
use otel_forge.Runner.Worker.{work}
use otel_forge.System.{at_start}
use otel_forge.System.Outcome.{Finished}
use otel_forge.System.Finished.{created_event_ends}
use otel_forge.Tests.Data.{calm-NothingFails, calm, key, tables, restart_all, restart_node, at_rest}

-- No job and no message yet.
abbrev idle : World
idle = record {
  db = record tables { jobs = []; event_instances = [] };
  ready = [];
  dead = [];
  sent = [];
  calls = 0;
}

abbrev restart_2 : EventDetail
restart_2 = record {
  event = record restart_all { id = 2; created_at = 2 };
  instance_ids = 5 ∷ [];
  jobs = [];
}

created_now : (create restart_node calm idle).0 ≡ ok restart_2
unfolding create validate check_owned user_owns_instance launch create_event_with_jobs insert_event
    insert_jobs link_instance insert_job update_event_status publish_all publish enqueue ◌>>=◌
    requires_config
created_now = refl

created_event_ends_example :
    let v = (create restart_node calm idle).1 in
    let u = (consume (length v.ready) (work key) calm v).1 in (u.ready ≡ []) × Finished 2 u
created_event_ends_example =
    created_event_ends 2 (at_rest idle) (at_rest idle) restart_node calm restart_2 key calm refl
      refl refl refl at_start created_now calm-NothingFails
