-- ===== src/Server/Reads.antt =====
-- What the requests that read, do to the world: nothing.
use otel_forge.Prelude.{ℕ, ◌≡◌, String, Bool, true, false, Option, none, some, List, [], ◌∷◌}
use otel_forge.Models.{is_admin, User, Job, Instance, EventDetail, EventFilter}
use otel_forge.Action.{World, Action, Result, ok, err, pure, try, ◌>>=◌}
use otel_forge.Action.Rules.{Frame, Does, Does-if, does_rules}
use otel_forge.Crypto.Password.{check_password}
use otel_forge.Store.Users.{get_user_by_email, get_user_by_id}
use otel_forge.Store.Instances.{list_instances}
use otel_forge.Store.Events.Query.{list_events}
use otel_forge.Store.Jobs.{get_job, list_checks_for_job, fill_checks, list_jobs_for_event}
use otel_forge.Service.Checks.{OnlyReads, OnlyReads-Frame, reading}
use otel_forge.Service.Rerun.{get_event-OnlyReads}
use otel_forge.Auth.{
  issue_token, parse_token, with_user, with_claims, with_bearer, require_auth, require_admin,
}
use otel_forge.Handlers.Replies.{Reply}
use otel_forge.Handlers.Events.{get_known, get, list, admin_list_events}
use otel_forge.Handlers.Events as Events
use otel_forge.Handlers.Instances as Instances
use otel_forge.Handlers.Login.{LoginRequest, checked, known, login}
use otel_forge.Server.{
  Settings, Body, answer, UserRequest, instances_get, events_get, event_get, instances_post,
  bulk_post, instance_put, instance_delete, events_post, rerun_post, clone_post, rollback_post,
  AdminRequest, admin_events_get, admin_instances_get, Request, health, post_login, protected,
  admin, handle_user, handle_admin, serve,
}

list_instances-OnlyReads : (id : ℕ) (all : Bool) → Does OnlyReads (list_instances id all)
unfolding list_instances
list_instances-OnlyReads id all = search reading depth 12

list_events-OnlyReads : (f : EventFilter) → Does OnlyReads (list_events f)
unfolding list_events
list_events-OnlyReads f = search reading depth 12

list_checks_for_job-OnlyReads : (id : ℕ) → Does OnlyReads (list_checks_for_job id)
unfolding list_checks_for_job
list_checks_for_job-OnlyReads id = search reading depth 12

pub get_job-OnlyReads : (id : ℕ) → Does OnlyReads (get_job id)
unfolding get_job
get_job-OnlyReads id = search reading depth 12

fill_checks-OnlyReads : (rows : List (Job × Instance)) → Does OnlyReads (fill_checks rows)
unfolding fill_checks
fill_checks-OnlyReads [] = search reading
fill_checks-OnlyReads ((j, i) ∷ rows) =
    let rest = fill_checks-OnlyReads rows in
    search (reading, list_checks_for_job-OnlyReads) depth 12

list_jobs_for_event-OnlyReads : (id : ℕ) → Does OnlyReads (list_jobs_for_event id)
unfolding list_jobs_for_event
list_jobs_for_event-OnlyReads id = search (reading, fill_checks-OnlyReads) depth 12

get_known-OnlyReads :
    (user : User) (id : ℕ) (r : Result EventDetail) → Does OnlyReads (get_known user id r)
unfolding get_known
get_known-OnlyReads user id (err _) = search reading
get_known-OnlyReads user id (ok ev) =
    Does-if (Events.forbidden user ev) _ _ (search reading)
      (search (reading, list_jobs_for_event-OnlyReads) depth 9)

-- The handlers that answer with what they find.
list_all-OnlyReads :
    (user : User) → Does OnlyReads (Instances.list user) × Does OnlyReads Instances.admin_list
list_all-OnlyReads user = (
  unfold Instances.list in search (reading, list_instances-OnlyReads) depth 9,
  unfold Instances.admin_list in search (reading, list_instances-OnlyReads) depth 9,
)

checked-OnlyReads :
    (secret : String) (user : User) (r : Result (Unit {0})) → Does OnlyReads (checked secret user r)
unfolding checked issue_token
checked-OnlyReads secret user (ok _) = search reading depth 20
checked-OnlyReads secret user (err _) = search reading

known-OnlyReads :
    (secret password : String) (r : Result User) → Does OnlyReads (known secret password r)
unfolding known check_password
known-OnlyReads secret password (ok user) = search (reading, checked-OnlyReads) depth 14
known-OnlyReads secret password (err _) = search reading

login-OnlyReads : (secret : String) (req : Option LoginRequest) → Does OnlyReads (login secret req)
unfolding login get_user_by_email
login-OnlyReads secret none = search reading
login-OnlyReads secret (some req) = search (reading, known-OnlyReads) depth 14

module _ {R : World → World → Type 0} (frame : Frame R) where
  pub answer-Does :
      {A : Type 0} (f : A → Body) (m : Action (Reply A)) → Does R m → Does R (answer f m)
  unfolding answer
  answer-Does f m d = search does_rules

  module _ {A : Type 0} (secret : String) (next : User → Action (Reply A))
      (goes_on : (u : User) → Does R (next u)) where
    with_user-Does : (r : Result User) → Does R (with_user secret next r)
    unfolding with_user
    with_user-Does (ok user) = goes_on user
    with_user-Does (err _) = search does_rules

    with_claims-Does : (r : Result otel_forge.Action.Claims) → Does R (with_claims secret next r)
    unfolding with_claims get_user_by_id
    with_claims-Does (ok claims) = search (does_rules, with_user-Does) depth 14
    with_claims-Does (err _) = search does_rules

    with_bearer-Does : (token : Option String) → Does R (with_bearer secret next token)
    unfolding with_bearer parse_token
    with_bearer-Does none = search does_rules
    with_bearer-Does (some token) = search (does_rules, with_claims-Does) depth 14

    pub require_auth-Does : (header : String) → Does R (require_auth secret next header)
    unfolding require_auth
    require_auth-Does header = with_bearer-Does _

    pub require_admin-Does : (user : User) → Does R (require_admin next user)
    unfolding require_admin
    require_admin-Does user = Does-if (is_admin user.role) _ _ (goes_on user) (search does_rules)

-- The requests that are made by GET, and the login.
abbrev pub is_query : Request → Bool
is_query (protected instances_get) = true
is_query (protected (events_get _)) = true
is_query (protected (event_get _)) = true
is_query (protected _) = false
is_query _ = true

pub handle_query-OnlyReads :
    (s : Settings) (r : UserRequest) (user : User)
    → is_query (protected r) ≡ true
    → Does OnlyReads (handle_user s r user)
unfolding handle_user
handle_query-OnlyReads s instances_get user h =
    answer-Does OnlyReads-Frame _ _ (list_all-OnlyReads user).0
handle_query-OnlyReads s (events_get q) user h =
    answer-Does OnlyReads-Frame _ _
      (unfold Events.list in search (reading, list_events-OnlyReads) depth 9)
handle_query-OnlyReads s (event_get id) user h =
    answer-Does OnlyReads-Frame _ _
      (unfold Events.get in search (reading, get_event-OnlyReads, get_known-OnlyReads) depth 9)
handle_query-OnlyReads s (instances_post _) user h = cc
handle_query-OnlyReads s (bulk_post _) user h = cc
handle_query-OnlyReads s (instance_put _ _) user h = cc
handle_query-OnlyReads s (instance_delete _) user h = cc
handle_query-OnlyReads s (events_post _) user h = cc
handle_query-OnlyReads s (rerun_post _) user h = cc
handle_query-OnlyReads s (clone_post _ _) user h = cc
handle_query-OnlyReads s (rollback_post _ _) user h = cc

handle_admin-OnlyReads : (r : AdminRequest) (user : User) → Does OnlyReads (handle_admin r user)
unfolding handle_admin
handle_admin-OnlyReads (admin_events_get q) user =
    answer-Does OnlyReads-Frame _ _
      (unfold Events.admin_list_events in search (reading, list_events-OnlyReads) depth 9)
handle_admin-OnlyReads admin_instances_get user =
    answer-Does OnlyReads-Frame _ _ (list_all-OnlyReads user).1

-- The requests that are made by GET, those of administrators included, and the login change no
-- table, no queue and run no command, whatever they are answered.
pub serve_queries :
    (s : Settings) (header : String) (r : Request)
    → is_query r ≡ true
    → Does OnlyReads (serve s header r)
unfolding serve
serve_queries s header health h = search reading
serve_queries s header (post_login req) h =
    answer-Does OnlyReads-Frame _ _ (login-OnlyReads s.jwt_secret req)
serve_queries s header (protected r) h =
    require_auth-Does OnlyReads-Frame s.jwt_secret (handle_user s r)
      (λ u. handle_query-OnlyReads s r u h) header
serve_queries s header (admin r) h =
    require_auth-Does OnlyReads-Frame s.jwt_secret _
      (λ _.
        require_auth-Does OnlyReads-Frame s.jwt_secret _
          (require_admin-Does OnlyReads-Frame s.jwt_secret _ (handle_admin-OnlyReads r)) header)
      header
