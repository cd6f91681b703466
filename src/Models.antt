-- ===== src/Models.antt =====
-- internal/models/models.go: the domain types.
-- Identifiers are UUIDs, so they are numbers here; other texts are `String`. A column that the
-- schema of internal/db/migrations lets be NULL is an `Option`. Secrets and ciphertexts are bytes,
-- the numbers below 256.
use otel_forge.Prelude.Int.{ℤ}
use otel_forge.Prelude.{ℕ, String, Bool, true, false, Option, List, [], ◌∷◌, str_eq}

abbrev pub Bytes : Type 0
Bytes = List ℕ

-- A `Role` is a string in the source; `other` is any that is neither of the constants.
pub data Role : Type 0 where
  user admin : Role
  other : String → Role

abbrev pub is_admin : Role → Bool
is_admin Role.admin = true
is_admin _ = false

-- `other` is a string that is none of the constants: a request may hold any.
pub data TaskType : Type 0 where
  deploy_config validate_config restart check_status fetch_logs rollback stop ssh_test : TaskType
  install_agent : TaskType
  other : String → TaskType

abbrev pub task_text : TaskType → String
task_text TaskType.deploy_config = "deploy_config"
task_text TaskType.validate_config = "validate_config"
task_text TaskType.restart = "restart_collector"
task_text TaskType.check_status = "check_status"
task_text TaskType.fetch_logs = "fetch_logs"
task_text TaskType.rollback = "rollback_config"
task_text TaskType.stop = "stop_collector"
task_text TaskType.ssh_test = "ssh_connectivity_test"
task_text TaskType.install_agent = "install_otel_agent"
task_text (TaskType.other s) = s

-- `t == u` on the strings
abbrev pub same_task : TaskType → TaskType → Bool
same_task t u = str_eq (task_text t) (task_text u)

-- The comparison with the two constants is a match here.
unfoldable pub requires_config : TaskType → Bool
requires_config TaskType.deploy_config = true
requires_config TaskType.validate_config = true
requires_config _ = false

abbrev pub all_task_types : List TaskType
all_task_types =
    TaskType.deploy_config ∷ TaskType.validate_config ∷ TaskType.restart ∷ TaskType.check_status
    ∷ TaskType.fetch_logs ∷ TaskType.rollback ∷ TaskType.stop ∷ TaskType.ssh_test
    ∷ TaskType.install_agent ∷ []

pub data EventStatus : Type 0 where
  queued running completed partial failed : EventStatus

abbrev pub event_status_text : EventStatus → String
event_status_text EventStatus.queued = "QUEUED"
event_status_text EventStatus.running = "RUNNING"
event_status_text EventStatus.completed = "COMPLETED"
event_status_text EventStatus.partial = "PARTIAL"
event_status_text EventStatus.failed = "FAILED"

pub data JobStatus : Type 0 where
  queued running verified failed : JobStatus

-- `status = …` in SQL
abbrev pub same_job_status : JobStatus → JobStatus → Bool
same_job_status JobStatus.queued JobStatus.queued = true
same_job_status JobStatus.running JobStatus.running = true
same_job_status JobStatus.verified JobStatus.verified = true
same_job_status JobStatus.failed JobStatus.failed = true
same_job_status _ _ = false

pub data CheckPhase : Type 0 where
  pre post : CheckPhase

pub record User : Type 0 where
  pub id : ℕ
  pub email : String
  pub password_hash : String
  pub role : Role
  pub created_at : ℕ

pub record Instance : Type 0 where
  pub id : ℕ
  pub owner_id : ℕ
  pub name : String
  pub host : String
  pub port : ℤ
  pub ssh_user : String
  pub ssh_password_enc : Option Bytes
  pub ssh_private_key_enc : Option Bytes
  pub ssh_host_key_fingerprint : Option String
  pub created_at : ℕ

-- What `ListInstances` returns: a row joined with its owner's email.
pub record InstanceListing : Type 0 where
  pub instance_row : Instance
  pub owner_email : String

pub record Event : Type 0 where
  pub id : ℕ
  pub owner_id : ℕ
  pub name : String
  pub launcher_name : String
  pub launcher_email : String
  pub task_type : TaskType
  pub config_content : Option String
  pub config_checksum : Option String
  pub status : EventStatus
  pub related_event_id : Option ℕ
  pub rollback_scope : Option String
  pub total_jobs : ℕ
  pub verified_count : ℕ
  pub failed_count : ℕ
  pub created_at : ℕ

pub record Job : Type 0 where
  pub id : ℕ
  pub event_id : ℕ
  pub instance_id : ℕ
  pub status : JobStatus
  pub stdout : Option String
  pub stderr : Option String
  pub exit_code : Option ℕ
  pub started_at : Option ℕ
  pub finished_at : Option ℕ

pub record JobCheck : Type 0 where
  pub id : ℕ
  pub job_id : ℕ
  pub phase : CheckPhase
  pub name : String
  pub passed : Bool
  pub message : String

-- A `Job` as `ListJobsForEvent` fills it: the row, the instance's columns and the checks.
pub record JobDetail : Type 0 where
  pub job : Job
  pub open job use *
  pub instance_name : String
  pub instance_host : String
  pub instance_port : ℤ
  pub checks : List JobCheck

-- An `Event` as the program hands it on: the row, and the two fields that are no columns.
pub record EventDetail : Type 0 where
  pub event : Event
  pub open event use *
  pub instance_ids : List ℕ
  pub jobs : List JobDetail

-- The empty text, or the nil pointer, of a filter is `none`.
pub record EventFilter : Type 0 where
  pub owner_id : Option ℕ
  pub launcher_email : String
  pub status : String
  pub task_type : String
  pub from : Option ℕ
  pub to : Option ℕ
