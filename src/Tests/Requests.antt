-- ===== src/Tests/Requests.antt =====
-- The theorems on the store, the secrets, the host keys and the service at concrete inputs.
use otel_forge.Prelude.{
  ◌==◌, if◌then◌else◌, ℕ, ◌+◌, ◌≤◌, ◌≡◌, ◌≢◌, ◌↔◌, ◌⊎◌, inl, inr, refl, String, Bool, true, false,
  Option, none, some, List, [], ◌∷◌, first, select, order_by, eq_iff, arith,
}
use otel_forge.Models.{
  TaskType, EventStatus, JobStatus, Instance, Event, EventDetail, EventFilter, Job,
}
use otel_forge.Action.{Env, World, Error, ok, err, ◌>>=◌}
use otel_forge.Crypto.{parse_key, encrypt, decrypt}
use otel_forge.Crypto.Hex.{encode}
use otel_forge.Crypto.RoundTrip.{SealsAndOpens, decrypt-encrypt}
use otel_forge.Store.Users.{user_owns_instance, user_owns_event}
use otel_forge.Store.Instances.{has_id, update_instance_host_key_fingerprint}
use otel_forge.Store.Events.{
  insert_event, link_instance, insert_job, insert_jobs, create_event_with_jobs, get_event,
  update_event_status,
}
use otel_forge.Store.Events.Creation.{Created, create_event_with_jobs_atomic}
use otel_forge.Store.Events.Query.{list_events}
use otel_forge.Store.Events.Filter.{list_events_exact}
use otel_forge.Store.Jobs.{reset_failed_jobs}
use otel_forge.Ssh.HostKey.{verify_host_key}
use otel_forge.Ssh.Client.{
  Config, test_connectivity, run_script, run_remote, run_session, connect, auth_methods, handshake,
  run_on, send,
}
use otel_forge.Ssh.Pinning.{first_use_pins}
use otel_forge.Ssh.Guarded.{IsGuarded, pinned_key_guards}
use otel_forge.Queue.{publish, enqueue}
use otel_forge.Service.{params_of, validate, check_owned, publish_all, launch, create, rerun_failed}
use otel_forge.Service.Checks.{Checked}
use otel_forge.Service.Launch.{Launched, create_launches}
use otel_forge.Service.Rerun.{EventOwnedBy, Rerun, rerun_failed_resets}
use otel_forge.Tests.Data.{calm, key, restart_node, world, waiting, restart_all, node, tables}

pub calm-SealsAndOpens : SealsAndOpens calm
calm-SealsAndOpens = record { opens = λ k n p lk ln. opened n p ln; filled = λ n. omega arith }
  where
    opened :
        (n p : List ℕ)
        → otel_forge.Prelude.length n ≡ 2
        → calm.gcm_open key n (calm.gcm_seal key n p) ≡ some p
    opened n p ln = refl

sealed_7 : (encrypt (7 ∷ []) key calm world).0 ≡ ok (1 ∷ 2 ∷ 9 ∷ 7 ∷ [])
unfolding encrypt parse_key ◌>>=◌
sealed_7 = refl

hex_key : parse_key (encode key) ≡ parse_key key
unfolding parse_key encode otel_forge.Crypto.Hex.decode otel_forge.Crypto.Hex.hex_value
hex_key = refl

decrypt-encrypt_example :
    decrypt (1 ∷ 2 ∷ 9 ∷ 7 ∷ []) (encode key) calm world ≡ (ok (7 ∷ []), world)
decrypt-encrypt_example =
    decrypt-encrypt calm calm-SealsAndOpens (7 ∷ []) key (encode key) world world hex_key sealed_7

abbrev restarts : EventFilter
restarts = record {
  owner_id = some 1;
  launcher_email = "alice";
  status = "RUNNING";
  task_type = "";
  from = none;
  to = some 5;
}

list_events_exact_example :
    list_events restarts calm world ≡ (ok (restart_all ∷ []), record world { calls = 1 })
list_events_exact_example = list_events_exact restarts calm world refl

abbrev pinned_node : Config
pinned_node = record {
  host = node.host;
  port = node.port;
  user = node.ssh_user;
  password = 7 ∷ [];
  private_key_pem = [];
  expected_host_key_fingerprint = "SHA256:node";
  pin_host_key = none;
}

fingerprint_given : pinned_node.expected_host_key_fingerprint ≢ ""
fingerprint_given h =
    let e : false ≡ true = (eq_iff pinned_node.expected_host_key_fingerprint "").1 h in cc

pinned_key_guards_example :
    IsGuarded pinned_node calm world (test_connectivity pinned_node calm world).1
    × IsGuarded pinned_node calm world (run_script pinned_node "restart.sh" none calm world).1
pinned_key_guards_example =
    pinned_key_guards pinned_node fingerprint_given calm "restart.sh" none world

-- A command does go out to that node.
command_sent : (test_connectivity pinned_node calm world).1.sent ≡ "echo ok" ∷ []
unfolding test_connectivity run_remote connect auth_methods handshake verify_host_key run_on
    run_session send ◌>>=◌
command_sent = refl

first_use_pins_example :
    let (r, w') =
      verify_host_key "" (some (update_instance_host_key_fingerprint 5)) "SHA256:node" calm world in
    (r ≡ ok tt)
    × (first (has_id 5) w'.instances
        ≡ some (record node { ssh_host_key_fingerprint = some "SHA256:node" }))
first_use_pins_example = first_use_pins 5 "SHA256:node" calm world refl refl

create_event_with_jobs_atomic_example :
    let (r, w') = create_event_with_jobs (params_of calm restart_node) calm world in
    ((ev : EventDetail) × (jobs : List Job) × (r ≡ ok (ev, jobs))
      × Created (params_of calm restart_node) ev jobs world w')
    ⊎ ((e : Error) × (r ≡ err e) × (w'.db ≡ tables))
create_event_with_jobs_atomic_example =
    create_event_with_jobs_atomic (params_of calm restart_node) calm world

abbrev restart_2 : EventDetail
restart_2 = record {
  event = record restart_all { id = 2; created_at = 2 };
  instance_ids = 5 ∷ [];
  jobs = [];
}

created_now : (create restart_node calm world).0 ≡ ok restart_2
unfolding create validate check_owned user_owns_instance launch create_event_with_jobs insert_event
    insert_jobs link_instance insert_job update_event_status publish_all publish enqueue ◌>>=◌
    otel_forge.Models.requires_config
created_now = refl

create_launches_example :
    Checked restart_node calm world
    × Launched restart_node restart_2 world (create restart_node calm world).1
create_launches_example = create_launches restart_node calm world restart_2 created_now

abbrev failed_world : World
failed_world = record world {
  db = record tables {
    jobs = record waiting { status = JobStatus.failed; exit_code = some 1 } ∷ [];
    events = record restart_all { status = EventStatus.failed; failed_count = 1 } ∷ [];
  };
  ready = [];
}

abbrev again : EventDetail
again = record { event = record restart_all { failed_count = 1 }; instance_ids = 5 ∷ []; jobs = [] }

rerun_now : (rerun_failed 10 1 false calm failed_world).0 ≡ ok again
unfolding rerun_failed user_owns_event reset_failed_jobs get_event update_event_status publish_all
    publish enqueue ◌>>=◌
rerun_now = refl

rerun_failed_resets_example :
    ((false ≡ true) ⊎ EventOwnedBy 1 10 failed_world)
    × Rerun 10 again failed_world (rerun_failed 10 1 false calm failed_world).1
rerun_failed_resets_example = rerun_failed_resets 10 1 false calm failed_world again rerun_now

-- The broker closes the channel.
abbrev no_channel : Env
no_channel = record calm { fault = λ n. if n == 5 then some "channel closed" else none }
