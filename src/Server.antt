-- ===== src/Server.antt =====
-- api/cmd/server/main.go: the routes. A request is what the router makes of a method, a path and a
-- body; the middleware of third parties (recover, logger, CORS) is left out.
pub mod Guards
pub mod Reads
use otel_forge.Prelude.{ℕ, String, Option, none, some, List}
use otel_forge.Models.{Bytes, User, Event, EventDetail}
use otel_forge.Action.{Action, pure, lift, ◌>>=◌, ◌>>◌}
use otel_forge.Config.{load}
use otel_forge.Database as Database
use otel_forge.Database.{migrate}
use otel_forge.Queue.Setup as Setup
use otel_forge.Queue.Setup.{declare}
use otel_forge.Prelude.Text.{bytes}
use otel_forge.Auth.{require_auth, require_admin}
use otel_forge.Handlers.Replies.{Reply, json, text, status}
use otel_forge.Handlers.Events.{CreateEventRequest, CloneRequest, EventQuery}
use otel_forge.Handlers.Events as Events
use otel_forge.Handlers.Instances.{
  InstanceDto, CreateInstanceRequest, UpdateInstanceRequest, BulkResult,
}
use otel_forge.Handlers.Instances as Instances
use otel_forge.Handlers.Login.{LoginRequest, LoginResponse, login}

-- What the handlers are made with; `parse_time` is `time.Parse` of RFC 3339.
pub record Settings : Type 0 where
  pub jwt_secret : String
  pub encryption_key : Bytes
  pub parse_time : String → Option ℕ

-- The start of `main`, up to the handlers.
unfoldable pub start : (String → Option ℕ) → (String → String) → Action Settings
start parse_time getenv = do
  cfg ← lift (load getenv)
  Database.connect
  migrate
  Setup.connect
  declare
  pure (record {
    jwt_secret = cfg.jwt_secret;
    encryption_key = bytes cfg.encryption_key;
    parse_time = parse_time;
  })

-- The values that the handlers answer with.
pub data Body : Type 0 where
  login_body : LoginResponse → Body
  instance_body : InstanceDto → Body
  instances_body : List InstanceDto → Body
  bulk_body : BulkResult → Body
  event_body : EventDetail → Body
  events_body : List Event → Body
  no_body : Unit {0} → Body

abbrev as_body : {A : Type 0} → (A → Body) → Reply A → Reply Body
as_body f (json n a) = json n (f a)
as_body f (text n s) = text n s
as_body f (status n) = status n

unfoldable pub answer : {A : Type 0} → (A → Body) → Action (Reply A) → Action (Reply Body)
answer f m = do r ← m; pure (as_body f r)

-- The routes of `protected`.
pub data UserRequest : Type 0 where
  instances_get : UserRequest
  instances_post : Option CreateInstanceRequest → UserRequest
  bulk_post : Option String → UserRequest
  instance_put : ℕ → Option UpdateInstanceRequest → UserRequest
  instance_delete : ℕ → UserRequest
  events_get : EventQuery → UserRequest
  events_post : Option CreateEventRequest → UserRequest
  event_get : ℕ → UserRequest
  rerun_post : ℕ → UserRequest
  clone_post : ℕ → CloneRequest → UserRequest
  rollback_post : ℕ → ℕ → UserRequest

-- The routes of `admin`.
pub data AdminRequest : Type 0 where
  admin_events_get : EventQuery → AdminRequest
  admin_instances_get : AdminRequest

pub data Request : Type 0 where
  health : Request
  post_login : Option LoginRequest → Request
  protected : UserRequest → Request
  admin : AdminRequest → Request

unfoldable pub handle_user : Settings → UserRequest → User → Action (Reply Body)
handle_user s instances_get user = answer instances_body (Instances.list user)
handle_user s (instances_post req) user =
    answer instance_body (Instances.create s.encryption_key user req)
handle_user s (bulk_post csv) user =
    answer bulk_body (Instances.bulk_create s.encryption_key user csv)
handle_user s (instance_put id req) user =
    answer instance_body (Instances.update s.encryption_key user id req)
handle_user s (instance_delete id) user = answer no_body (Instances.delete user id)
handle_user s (events_get q) user = answer events_body (Events.list s.parse_time user q)
handle_user s (events_post req) user = answer event_body (Events.create user req)
handle_user s (event_get id) user = answer event_body (Events.get user id)
handle_user s (rerun_post id) user = answer event_body (Events.rerun_failed user id)
handle_user s (clone_post id req) user = answer event_body (Events.clone user id req)
handle_user s (rollback_post id job_id) user =
    answer event_body (Events.rollback_job user id job_id)

unfoldable pub handle_admin : AdminRequest → User → Action (Reply Body)
handle_admin (admin_events_get q) user = answer events_body (Events.admin_list_events q)
handle_admin admin_instances_get user = answer instances_body Instances.admin_list

-- `header` is the Authorization header. The group `protected` has the prefix of `api`, so that its
-- middleware comes before that of `admin`.
unfoldable pub serve : Settings → String → Request → Action (Reply Body)
serve s header health = pure (text 200 "ok")
serve s header (post_login req) = answer login_body (login s.jwt_secret req)
serve s header (protected r) = require_auth s.jwt_secret (handle_user s r) header
serve s header (admin r) =
    require_auth s.jwt_secret
      (λ (_ : User). require_auth s.jwt_secret (require_admin (handle_admin r)) header) header
