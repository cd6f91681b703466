-- ===== src/Tests/Reruns.antt =====
-- The theorem on a rerun at a state that a request and a failed delivery reach.
use otel_forge.Prelude.{
  ◌≡◌, refl, true, false, inr, some, none, [], ◌∷◌, length, All, exists, arith,
}
use otel_forge.Models.{requires_config, EventDetail, TaskType}
use otel_forge.Action.{Env, Delivery, ok, ◌>>=◌}
use otel_forge.Auth.{parse_token, with_user, with_claims, with_bearer, require_auth}
use otel_forge.Crypto.{decrypt, parse_key}
use otel_forge.Handlers.Events as Events
use otel_forge.Handlers.Events.{create_input}
use otel_forge.Server.{answer, handle_user, serve}
use otel_forge.Service as Service
use otel_forge.Service.{validate, check_owned, launch, publish_all}
use otel_forge.Store.Events.{
  insert_event, insert_jobs, insert_job, link_instance, create_event_with_jobs, get_event,
  update_event_status,
}
use otel_forge.Store.Instances.{get_instance}
use otel_forge.Store.Rollup.{rollup_event, write_rollup, rollup_status, count_jobs, count_pending}
use otel_forge.Store.Users.{get_user_by_id, user_owns_instance, user_owns_event}
use otel_forge.Store.Jobs.{
  of_event, failed_of, get_job, update_job_running, update_job_result, reset_failed_jobs,
}
use otel_forge.Queue.{publish, enqueue, ack, settle_delivery, on_delivery, consume}
use otel_forge.Runner.{
  handle, work_on, begin_job, decrypt_column, or_fail, fail, fail_job, conclude,
}
use otel_forge.Service.{rerun_failed}
use otel_forge.Runner.Conclusion.{HasEnded}
use otel_forge.Runner.Worker.{work}
use otel_forge.Pool.{Pool, takes, settles}
use otel_forge.System.{turn, Reach, then_step}
use otel_forge.System.Outcome.{Finished}
use otel_forge.System.Again.{rerun_event_ends}
use otel_forge.Tests.Data.{calm-NothingFails, calm, key, restart_all, at_rest}
use otel_forge.Tests.Processes.{before, after, path}

abbrev message_6 : Delivery
message_6 = record {
  body = some (record { job_id = 6; event_id = 4; instance_id = 5; task_type = TaskType.restart });
  headers = none;
}

-- The secrets of the node cannot be read.
abbrev locked : Env
locked = record calm { gcm_open = λ key nonce ciphertext. none }

abbrev taken : Pool
taken = record (at_rest after) {
  world = record after { ready = [] };
  waiting = 1;
  unsettled = message_6 ∷ [];
}

abbrev failed : Pool
failed = record taken {
  world = (on_delivery (work key) message_6.body message_6 locked taken.world).1;
  waiting = 2;
  unsettled = [];
}

message_ready : after.ready ≡ message_6 ∷ []
unfolding serve handle_user answer require_auth with_bearer parse_token with_claims get_user_by_id
    with_user Events.create create_input Service.create validate check_owned user_owns_instance
    launch create_event_with_jobs insert_event insert_jobs insert_job link_instance
    update_event_status publish_all publish enqueue ◌>>=◌ requires_config
message_ready = refl

path_failed : Reach 2 (at_rest before) failed
path_failed =
    then_step (then_step path (turn (takes (at_rest after) 1 message_6 [] refl message_ready)))
      (turn (settles taken [] [] message_6 key locked refl))

abbrev again_4 : EventDetail
again_4 = record {
  event = record restart_all { id = 4; created_at = 4; failed_count = 1 };
  instance_ids = 5 ∷ [];
  jobs = [];
}

facts :
    All (λ j. of_event 4 j ≡ true → HasEnded j) failed.world.jobs
    × (exists (failed_of 4) failed.world.jobs ≡ true)
    × ((rerun_failed 4 1 false calm failed.world).0 ≡ ok again_4)
unfolding serve handle_user answer require_auth with_bearer parse_token with_claims get_user_by_id
    with_user Events.create create_input Service.create validate check_owned user_owns_instance
    launch create_event_with_jobs insert_event insert_jobs insert_job link_instance
    update_event_status publish_all publish enqueue ◌>>=◌ requires_config on_delivery
    settle_delivery ack work handle get_job get_event work_on get_instance begin_job
    update_job_running decrypt_column decrypt parse_key or_fail fail fail_job conclude
    update_job_result rollup_event write_rollup rollup_status count_jobs count_pending rerun_failed
    user_owns_event reset_failed_jobs
facts = ((λ _. inr (refl, (1, refl, λ e. omega arith)), tt), refl, refl)

rerun_event_ends_example :
    let v = (rerun_failed 4 1 false calm failed.world).1 in
    let u = (consume (length v.ready) (work key) calm v).1 in (u.ready ≡ []) × Finished 4 u
rerun_event_ends_example =
    rerun_event_ends 2 (at_rest before) failed 4 1 false calm again_4 key calm refl refl refl refl
      path_failed facts.0 facts.1 facts.2 calm-NothingFails
