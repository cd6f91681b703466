-- ===== src/Tasks.antt =====
-- internal/tasks/scripts.go: the script of each task.
use otel_forge.Prelude.{String, Option, none, some}
use otel_forge.Models.{TaskType}
use otel_forge.Action.{Action, lift, or_raise, driver, ◌>>=◌, get_env, unknown_task}

-- The map `scriptFiles`.
unfoldable pub script_files : TaskType → Option String
script_files TaskType.deploy_config = some "bash/deploy.sh"
script_files TaskType.validate_config = some "bash/validate.sh"
script_files TaskType.restart = some "bash/restart.sh"
script_files TaskType.check_status = some "bash/status.sh"
script_files TaskType.fetch_logs = some "bash/logs.sh"
script_files TaskType.rollback = some "bash/rollback.sh"
script_files TaskType.stop = some "bash/stop.sh"
script_files TaskType.ssh_test = some "bash/ssh_test.sh"
script_files TaskType.install_agent = some "bash/install.sh"
script_files (TaskType.other _) = none

-- The script as text, from the embedded files.
unfoldable pub script_for : TaskType → Action String
script_for task = do
  name ← lift (or_raise (script_files task) (unknown_task task))
  env ← get_env
  lift (or_raise (env.read_script name) (driver "file does not exist"))

abbrev or_empty : Option String → String
or_empty none = ""
or_empty (some s) = s

unfoldable pub script_name : TaskType → String
script_name task = or_empty (script_files task)
