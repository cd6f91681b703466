-- ===== src/Handlers/Events.antt =====
-- api/internal/handlers/events.go. The body of a request is `none` where the parser refuses it, and
-- `user` is what `auth.CurrentUser` gives behind `RequireAuth`.
use otel_forge.Prelude.{
  ℕ, String, Bool, not, ◌&&◌, ◌==◌, Option, none, some, List, [], ◌∷◌, is_blank, if◌then◌else◌,
}
use otel_forge.Prelude.Text.{◌⧺◌}
use otel_forge.Models.{TaskType, is_admin, User, Event, EventDetail, EventFilter, Job, JobDetail}
use otel_forge.Action.{Action, Result, ok, err, message, pure, try, ◌>>=◌}
use otel_forge.Store.Events.{get_event}
use otel_forge.Store.Events.Query.{list_events}
use otel_forge.Store.Jobs.{get_job, list_jobs_for_event}
use otel_forge.Service.{CreateInput}
use otel_forge.Handlers.Replies.{Reply, json, text, reply}

pub record CreateEventRequest : Type 0 where
  pub name : String
  pub launcher_name : String
  pub launcher_email : String
  pub task_type : TaskType
  pub config_content : Option String
  pub instance_ids : List ℕ

abbrev or_email : String → String → String
or_email s email = if is_blank s then email else s

unfoldable pub create_input : User → CreateEventRequest → CreateInput
create_input user req = record {
  owner_id = user.id;
  name = req.name;
  launcher_name = or_email req.launcher_name user.email;
  launcher_email = or_email req.launcher_email user.email;
  task_type = req.task_type;
  config_content = req.config_content;
  instance_ids = req.instance_ids;
  related_event_id = none;
  rollback_scope = none;
}

unfoldable pub create : User → Option CreateEventRequest → Action (Reply EventDetail)
create user none = pure (text 400 "invalid json")
create user (some req) = do
  r ← try (otel_forge.Service.create (create_input user req))
  pure (reply 202 400 r)

-- The parameters of the query string; the absent ones are empty.
pub record EventQuery : Type 0 where
  pub launcher_email : String
  pub status : String
  pub task_type : String
  pub from : String
  pub to : String

-- A time that `time.Parse` refuses is left out.
abbrev given_time : (String → Option ℕ) → String → Option ℕ
given_time parse s = if is_blank s then none else parse s

unfoldable pub list_filter : (String → Option ℕ) → User → EventQuery → EventFilter
list_filter parse user q =
    if is_admin user.role
    then record {
      owner_id = none;
      launcher_email = q.launcher_email;
      status = q.status;
      task_type = q.task_type;
      from = given_time parse q.from;
      to = given_time parse q.to;
    }
    else record {
      owner_id = some user.id;
      launcher_email = "";
      status = "";
      task_type = "";
      from = none;
      to = none;
    }

unfoldable pub list : (String → Option ℕ) → User → EventQuery → Action (Reply (List Event))
list parse user q = do r ← try (list_events (list_filter parse user q)); pure (reply 200 500 r)

-- `user.Role != models.RoleAdmin && ev.OwnerID != user.ID`
abbrev pub forbidden : User → EventDetail → Bool
forbidden user ev = not (is_admin user.role) && not (ev.owner_id == user.id)

abbrev pub with_jobs : EventDetail → Result (List JobDetail) → Reply EventDetail
with_jobs ev (ok jobs) = json 200 (record ev { jobs = jobs })
with_jobs ev (err e) = text 500 (message e)

unfoldable pub get_known : User → ℕ → Result EventDetail → Action (Reply EventDetail)
get_known user id (err _) = pure (text 404 "not found")
get_known user id (ok ev) =
    if forbidden user ev
    then pure (text 403 "forbidden")
    else (do r ← try (list_jobs_for_event id); pure (with_jobs ev r))

unfoldable pub get : User → ℕ → Action (Reply EventDetail)
get user id = do r ← try (get_event id); get_known user id r

unfoldable pub rerun_failed : User → ℕ → Action (Reply EventDetail)
rerun_failed user id = do
  r ← try (otel_forge.Service.rerun_failed id user.id (is_admin user.role))
  pure (reply 200 400 r)

pub record CloneRequest : Type 0 where
  pub name : String
  pub launcher_name : String
  pub launcher_email : String
  pub config_content : Option String
  pub instance_ids : List ℕ

-- `Clone` reads neither the owner nor the task of the overrides.
unfoldable pub overrides_of : User → CloneRequest → CreateInput
overrides_of user req = record {
  owner_id = user.id;
  name = req.name;
  launcher_name = req.launcher_name;
  launcher_email = req.launcher_email;
  task_type = TaskType.other "";
  config_content = req.config_content;
  instance_ids = req.instance_ids;
  related_event_id = none;
  rollback_scope = none;
}

-- A body that the parser refuses is taken as far as it was read.
unfoldable pub clone : User → ℕ → CloneRequest → Action (Reply EventDetail)
clone user id req = do
  r ← try (otel_forge.Service.clone id user.id (overrides_of user req))
  pure (reply 202 400 r)

unfoldable pub rollback_input : User → EventDetail → ℕ → Job → CreateInput
rollback_input user ev event_id job = record {
  owner_id = user.id;
  name = "Rollback " ⧺ ev.name;
  launcher_name = user.email;
  launcher_email = user.email;
  task_type = TaskType.rollback;
  config_content = none;
  instance_ids = job.instance_id ∷ [];
  related_event_id = some event_id;
  rollback_scope = some "instance";
}

unfoldable pub rollback_known : User → ℕ → EventDetail → Result Job → Action (Reply EventDetail)
rollback_known user event_id ev (err _) = pure (text 404 "not found")
rollback_known user event_id ev (ok job) =
    if not (job.event_id == event_id) then pure (text 404 "not found") else (do
      r ← try (otel_forge.Service.create (rollback_input user ev event_id job))
      pure (reply 202 400 r))

unfoldable pub rollback_allowed : User → ℕ → ℕ → Result EventDetail → Action (Reply EventDetail)
rollback_allowed user event_id job_id (err _) = pure (text 403 "forbidden")
rollback_allowed user event_id job_id (ok ev) =
    if forbidden user ev
    then pure (text 403 "forbidden")
    else (do r ← try (get_job job_id); rollback_known user event_id ev r)

unfoldable pub rollback_job : User → ℕ → ℕ → Action (Reply EventDetail)
rollback_job user event_id job_id = do
  r ← try (get_event event_id)
  rollback_allowed user event_id job_id r

-- The list behind `RequireAdmin`.
unfoldable pub admin_filter : EventQuery → EventFilter
admin_filter q = record {
  owner_id = none;
  launcher_email = q.launcher_email;
  status = q.status;
  task_type = q.task_type;
  from = none;
  to = none;
}

unfoldable pub admin_list_events : EventQuery → Action (Reply (List Event))
admin_list_events q = do r ← try (list_events (admin_filter q)); pure (reply 200 500 r)
