-- ===== src/Service.antt =====
-- internal/events/service.go: the creation, the rerun and the clone of events.
pub mod Checks
pub mod Launch
pub mod Rerun
pub mod Failure
pub mod RerunFailure
pub mod Copy
use otel_forge.Prelude.{
  ℕ, String, Bool, true, false, not, ◌||◌, Option, none, some, List, [], ◌∷◌, is_empty, is_blank,
  if◌then◌else◌,
}
use otel_forge.Prelude.Text.{◌⧺◌}
use otel_forge.Models.{TaskType, requires_config, EventStatus, Event, EventDetail, Job}
use otel_forge.Action.{
  Env, JobMessage, Action, Result, ok, err, raise, pure, lift, try, require, get_env, ◌>>=◌, ◌>>◌,
  event_not_found, instance_required, config_required, invalid_yaml, instance_not_owned,
}
use otel_forge.Store.Users.{user_owns_instance, user_owns_event}
use otel_forge.Store.Events.{
  CreateEventParams, create_event_with_jobs, get_event, update_event_status,
}
use otel_forge.Store.Jobs.{reset_failed_jobs}
use otel_forge.Queue.{publish}

pub record CreateInput : Type 0 where
  pub owner_id : ℕ
  pub name : String
  pub launcher_name : String
  pub launcher_email : String
  pub task_type : TaskType
  pub config_content : Option String
  pub instance_ids : List ℕ
  pub related_event_id : Option ℕ
  pub rollback_scope : Option String

-- yamlutil.ValidateYAML, on what the decoder reports
abbrev yaml_result : Option String → Result (Unit {0})
yaml_result none = ok tt
yaml_result (some e) = err (invalid_yaml e)

unfoldable pub validate_yaml : String → Action (Unit {0})
validate_yaml content = do env ← get_env; lift (yaml_result (env.yaml_error content))

unfoldable pub check_config : Option String → Action (Unit {0})
check_config none = raise config_required
check_config (some c) = if is_blank c then raise config_required else validate_yaml c

-- `err != nil || !ok`
abbrev pub refused : Result Bool → Bool
refused (ok owned) = not owned
refused (err _) = true

unfoldable pub check_owned : ℕ → List ℕ → Action (Unit {0})
check_owned owner_id [] = pure tt
check_owned owner_id (iid ∷ iids) = do
  r ← try (user_owns_instance owner_id iid)
  require (not (refused r)) (instance_not_owned iid)
  check_owned owner_id iids

abbrev checksum : Env → Option String → Option String
checksum env none = none
checksum env (some c) = some (env.sha256_hex c)

abbrev pub message_of : TaskType → Job → JobMessage
message_of task job = record {
  job_id = job.id;
  event_id = job.event_id;
  instance_id = job.instance_id;
  task_type = task;
}

-- The loop over the jobs: it stops at the first that cannot be published.
unfoldable pub publish_all : TaskType → List Job → Action (Unit {0})
publish_all task [] = pure tt
publish_all task (job ∷ jobs) = do publish (message_of task job); publish_all task jobs

abbrev pub params_of : Env → CreateInput → CreateEventParams
params_of env i = record {
  owner_id = i.owner_id;
  name = i.name;
  launcher_name = i.launcher_name;
  launcher_email = i.launcher_email;
  task_type = i.task_type;
  config_content = i.config_content;
  config_checksum = checksum env i.config_content;
  related_event_id = i.related_event_id;
  rollback_scope = i.rollback_scope;
  instance_ids = i.instance_ids;
}

-- The checks before anything is written.
unfoldable pub validate : CreateInput → Action (Unit {0})
validate i = do
  require (not (is_empty i.instance_ids)) instance_required
  if requires_config i.task_type then check_config i.config_content else pure tt
  check_owned i.owner_id i.instance_ids

-- The writes, once the checks have passed.
unfoldable pub launch : CreateInput → Action EventDetail
launch i = do
  env ← get_env
  made ← create_event_with_jobs (params_of env i)
  update_event_status made.0.id EventStatus.running
  publish_all i.task_type made.1
  pure (record made.0 { event = record made.0.event { status = EventStatus.running } })

unfoldable pub create : CreateInput → Action EventDetail
create i = do validate i; launch i

unfoldable pub rerun_failed : ℕ → ℕ → Bool → Action EventDetail
rerun_failed event_id owner_id admin = do
  if admin then pure tt else (do
    r ← try (user_owns_event owner_id event_id)
    require (not (refused r)) event_not_found)
  jobs ← reset_failed_jobs event_id
  ev ← get_event event_id
  publish_all ev.task_type jobs
  pure ev

abbrev or_text : String → String → String
or_text s default = if is_blank s then default else s

abbrev or_config : Option String → Option String → Option String
or_config none default = default
or_config (some c) default = some c

abbrev or_ids : List ℕ → List ℕ → List ℕ
or_ids [] default = default
or_ids (i ∷ is) default = i ∷ is

unfoldable pub cloned_input : EventDetail → ℕ → CreateInput → CreateInput
cloned_input src owner_id overrides = record {
  owner_id = owner_id;
  name = or_text overrides.name (src.name ⧺ " (clone)");
  launcher_name = or_text overrides.launcher_name src.launcher_name;
  launcher_email = or_text overrides.launcher_email src.launcher_email;
  task_type = src.task_type;
  config_content = or_config overrides.config_content src.config_content;
  instance_ids = or_ids overrides.instance_ids src.instance_ids;
  related_event_id = none;
  rollback_scope = none;
}

unfoldable pub clone : ℕ → ℕ → CreateInput → Action EventDetail
clone source_id owner_id overrides = do
  src ← get_event source_id
  r ← try (user_owns_event owner_id source_id)
  require (not (refused r)) event_not_found
  create (cloned_input src owner_id overrides)
