-- ===== src/Tests/Processes.antt =====
-- The theorems on the processes together, and on racing workers, at concrete inputs.
use otel_forge.Prelude.{
  ℕ, ◌+◌, ◌≡◌, refl, String, none, some, [], ◌∷◌, All, first, arith, str_eq, ◌&&◌, if◌then◌else◌,
}
use otel_forge.Models.{EventStatus, JobStatus, Event, Instance, Job}
use otel_forge.Action.{World, ◌>>=◌}
use otel_forge.Store.Events.{
  event_has_id, update_event_status, insert_event, insert_jobs, insert_job, link_instance,
  create_event_with_jobs,
}
use otel_forge.Store.Instances.{has_id}
use otel_forge.Store.Jobs.{job_has_id, update_job_result}
use otel_forge.Store.Rollup.{count_jobs, count_pending, rollup_status, write_rollup}
use otel_forge.Store.Users.{get_user_by_id, user_owns_instance}
use otel_forge.Queue.{publish, enqueue}
use otel_forge.Queue.Setup.{
  exchange_name, routing_key, queue_name, dlq_name, topology, Declaration, binding,
}
use otel_forge.Service.{validate, check_owned, launch, publish_all}
use otel_forge.Service as Service
use otel_forge.Auth.{parse_token, with_user, with_claims, with_bearer, require_auth}
use otel_forge.Handlers.Events.{CreateEventRequest, create_input}
use otel_forge.Handlers.Events as Events
use otel_forge.Server.{Settings, Request, protected, events_post, answer, handle_user, serve}
use otel_forge.System.{request, Reach, at_start, then_step}
use otel_forge.System.Reached.{jobs_stay_with_owner}
use otel_forge.System.Deliveries.{PoolKnown}
use otel_forge.System.Known.{messages_name_jobs}
use otel_forge.Workers.{
  Phase, outside, counted, summed, Shared, moved, job_ends, counts, sums, writes, Statements,
  none_yet, then_one, OnOpenJob, EndsOnce,
}
use otel_forge.Workers.NeverAhead.{RowNotAhead, rows_never_ahead}
use otel_forge.Tests.Data.{calm, key, world, tables, waiting, restart_all, node, at_rest}

abbrev settings : Settings
settings = record { jwt_secret = "secret"; encryption_key = key; parse_time = λ s. none }

abbrev pub before : World
before = record world {
  db = record tables { events = []; jobs = []; event_instances = [] };
  ready = [];
}

abbrev restart : Request
restart = protected (
    events_post (
      some (record {
        name = "restart";
        launcher_name = "";
        launcher_email = "";
        task_type = otel_forge.Models.TaskType.restart;
        config_content = none;
        instance_ids = 5 ∷ [];
      })))

abbrev pub after : World
after = (serve settings "Bearer token" restart calm before).1

abbrev made_job : Job
made_job = record waiting { id = 6; event_id = 4 }

abbrev made_event : Event
made_event = record restart_all { id = 4; created_at = 4 }

abbrev pub path : Reach 2 (at_rest before) (at_rest after)
path = then_step at_start (request settings "Bearer token" restart calm (at_rest before))

rows_found :
    (first (job_has_id 6) after.jobs ≡ some made_job)
    × (first (event_has_id 4) after.events ≡ some made_event)
    × (first (has_id 5) after.instances ≡ some node)
unfolding serve handle_user answer require_auth with_bearer parse_token with_claims get_user_by_id
    with_user Events.create create_input Service.create validate check_owned user_owns_instance
    launch create_event_with_jobs insert_event insert_jobs link_instance insert_job
    update_event_status publish_all publish enqueue ◌>>=◌ otel_forge.Models.requires_config
rows_found = (refl, refl, refl)

jobs_stay_with_owner_example : node.owner_id ≡ made_event.owner_id
jobs_stay_with_owner_example =
    jobs_stay_with_owner 2 (at_rest before) (at_rest after) 6 made_job made_event node refl path
      rows_found.0 rows_found.1 rows_found.2

messages_name_jobs_example : PoolKnown (at_rest after)
messages_name_jobs_example =
    messages_name_jobs 2 (at_rest before) (at_rest after) refl refl refl path

abbrev idle : ℕ → Phase
idle k = outside

-- An event of two jobs, of which the first is verified.
abbrev second : Job
second = record waiting { id = 21; status = JobStatus.running }

abbrev half_done : World
half_done = record world {
  db = record tables { jobs = record waiting { status = JobStatus.verified } ∷ second ∷ [] };
}

abbrev all_done : World
all_done = (update_job_result 21 JobStatus.verified "" "" 0 calm half_done).1

-- The worker of the first job counts, the second job ends, its worker rolls the event up, and then
-- the first worker goes on with what it has counted.
abbrev first_counts : ℕ → Phase
first_counts = moved 1 (counted 10 (count_jobs 10 half_done.jobs)) idle

abbrev second_counts : ℕ → Phase
second_counts = moved 2 (counted 10 (count_jobs 10 all_done.jobs)) first_counts

abbrev second_sums : ℕ → Phase
second_sums =
    moved 2 (summed 10 (count_jobs 10 all_done.jobs) (count_pending 10 all_done.jobs)) second_counts

abbrev second_written : World
second_written = record all_done {
  db = record all_done.db {
    events =
        write_rollup 10 (count_jobs 10 all_done.jobs) (count_pending 10 all_done.jobs)
          all_done.events;
  };
}

abbrev second_out : ℕ → Phase
second_out = moved 2 outside second_sums

abbrev first_sums : ℕ → Phase
first_sums =
    moved 1 (summed 10 (count_jobs 10 half_done.jobs) (count_pending 10 second_written.jobs))
      second_out

abbrev first_written : World
first_written = record second_written {
  db = record second_written.db {
    events =
        write_rollup 10 (count_jobs 10 half_done.jobs) (count_pending 10 second_written.jobs)
          second_written.events;
  };
}

abbrev start : Shared
start = record { world = half_done; phases = idle }

abbrev end : Shared
end = record { world = first_written; phases = moved 1 outside first_sums }

abbrev race : Statements start end
race =
    then_one
      (then_one
        (then_one
          (then_one
            (then_one
              (then_one (then_one none_yet (counts 1 10 half_done idle refl))
                (job_ends 21 JobStatus.verified "" "" 0 calm half_done first_counts refl))
              (counts 2 10 all_done first_counts refl))
            (sums 2 10 (count_jobs 10 all_done.jobs) all_done second_counts refl))
          (writes 2 10 (count_jobs 10 all_done.jobs) (count_pending 10 all_done.jobs) all_done
            second_sums refl))
        (sums 1 10 (count_jobs 10 half_done.jobs) second_written second_out refl))
      (writes 1 10 (count_jobs 10 half_done.jobs) (count_pending 10 second_written.jobs)
        second_written first_sums refl)

race-EndsOnce : EndsOnce race
unfolding EndsOnce OnOpenJob
race-EndsOnce = (((((((tt, tt), (λ h. cc, (λ h. refl, tt))), tt), tt), tt), tt), tt)

-- The event is shown as partly failed, although both jobs are verified and no worker is at work.
stale :
    (first (event_has_id 10) second_written.events
      ≡ some (record restart_all {
        status = EventStatus.completed;
        total_jobs = 2;
        verified_count = 2;
      }))
    × (first (event_has_id 10) end.world.events
        ≡ some (record restart_all {
          status = EventStatus.partial;
          total_jobs = 2;
          verified_count = 1;
        }))
unfolding update_job_result count_jobs count_pending rollup_status write_rollup ◌>>=◌
stale = (refl, refl)

half_done-NotAhead : All (RowNotAhead half_done.jobs) half_done.events
half_done-NotAhead = (
  record {
    verified_le = omega arith;
    failed_le = omega arith;
    completed_only = λ h. cc;
    failed_only = λ h. cc;
    partial_only = λ h. cc;
  },
  tt,
)

rows_never_ahead_example : All (RowNotAhead end.world.jobs) end.world.events
rows_never_ahead_example =
    rows_never_ahead start end half_done-NotAhead (λ k. refl) race race-EndsOnce

-- What a direct exchange does with a key: the queues that are bound to it under the key.
abbrev routed :
    String → String → otel_forge.Prelude.List Declaration → otel_forge.Prelude.List String
routed exchange chosen [] = []
routed exchange chosen (binding queue k e ∷ rest) =
    if str_eq e exchange && str_eq k chosen
    then queue ∷ routed exchange chosen rest
    else routed exchange chosen rest
routed exchange chosen (_ ∷ rest) = routed exchange chosen rest

jobs_routed : routed exchange_name routing_key topology ≡ queue_name ∷ []
jobs_routed = refl

rejected_routed : routed exchange_name "dlq" topology ≡ dlq_name ∷ []
rejected_routed = refl
