-- ===== src/Tests/Launches.antt =====
-- The theorems on a clone and on a creation that fails at concrete inputs.
use otel_forge.Prelude.{◌==◌, ◌≡◌, ◌⊎◌, refl, none, some, [], ◌∷◌, if◌then◌else◌}
use otel_forge.Models.{EventDetail, requires_config}
use otel_forge.Action.{Env, ok, err, driver, ◌>>=◌}
use otel_forge.Store.Users.{user_owns_instance, user_owns_event}
use otel_forge.Store.Events.{
  insert_event, link_instance, insert_job, insert_jobs, create_event_with_jobs, get_event,
  update_event_status,
}
use otel_forge.Queue.{publish, enqueue}
use otel_forge.Service.{
  CreateInput, validate, check_owned, publish_all, launch, create, cloned_input, clone,
}
use otel_forge.Service.Failure.{Abandoned, create_err}
use otel_forge.Service.Copy.{Cloned, clone_launches}
use otel_forge.Tests.Data.{calm, world, restart_all, restart_node}

-- The channel for the first message cannot be opened.
abbrev no_channel : Env
no_channel = record calm { fault = λ n. if n == 7 then some "closed" else none }

unpublished : (create restart_node no_channel world).0 ≡ err (driver "closed")
unfolding create validate check_owned user_owns_instance launch create_event_with_jobs insert_event
    insert_jobs link_instance insert_job update_event_status publish_all publish ◌>>=◌
    requires_config
unpublished = refl

create_err_example :
    let w' = (create restart_node no_channel world).1 in
    ((w'.db ≡ world.db) × (w'.ready ≡ world.ready)) ⊎ Abandoned restart_node world w'
create_err_example = create_err restart_node no_channel world (driver "closed") unpublished

abbrev no_overrides : CreateInput
no_overrides = record restart_node {
  name = "";
  launcher_name = "";
  launcher_email = "";
  instance_ids = [];
}

abbrev cloned_5 : EventDetail
cloned_5 = record {
  event = record restart_all { id = 5; name = "restart (clone)"; created_at = 5 };
  instance_ids = 5 ∷ [];
  jobs = [];
}

cloned_now : (clone 10 1 no_overrides calm world).0 ≡ ok cloned_5
unfolding clone get_event user_owns_event cloned_input create validate check_owned
    user_owns_instance launch create_event_with_jobs insert_event insert_jobs link_instance
    insert_job update_event_status publish_all publish enqueue ◌>>=◌ requires_config
cloned_now = refl

clone_launches_example :
    Cloned 10 1 no_overrides cloned_5 calm world (clone 10 1 no_overrides calm world).1
clone_launches_example = clone_launches 10 1 no_overrides calm world cloned_5 cloned_now
