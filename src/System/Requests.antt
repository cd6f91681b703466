-- ===== src/System/Requests.antt =====
-- What the requests do to the world, by what the operations below them do.
use otel_forge.Prelude.{ℕ, String, refl, Bool, Option, none, some, not, ◌==◌}
use otel_forge.Models.{User, EventDetail, Job}
use otel_forge.Action.{World, Action, Result, ok, err}
use otel_forge.Action.Rules.{Frame, Does, Does-if, does_rules}
use otel_forge.Service.{CreateInput}
use otel_forge.Service as Service
use otel_forge.Service.Checks.{OnlyReads}
use otel_forge.Service.Rerun.{get_event-OnlyReads}
use otel_forge.Handlers.Events as Events
use otel_forge.Handlers.Writes.{Writes, create-Does, update-Does, delete-Does, bulk_create-Does}
use otel_forge.Server.{
  Settings, UserRequest, instances_get, instances_post, bulk_post, instance_put, instance_delete,
  events_get, events_post, event_get, rerun_post, clone_post, rollback_post, Request, health,
  post_login, protected, admin, handle_user, serve,
}
use otel_forge.Server.Reads.{
  get_job-OnlyReads, answer-Does, require_auth-Does, handle_query-OnlyReads, serve_queries,
}

-- The operations that the handlers call.
pub record Operations (R : World → World → Type 0) : Type 0 where
  pub reads : (u v : World) → OnlyReads u v → R u v
  pub writes : (owner_id : ℕ) → Writes R owner_id
  pub creates : (i : CreateInput) → Does R (Service.create i)
  pub reruns : (id owner_id : ℕ) (admin : Bool) → Does R (Service.rerun_failed id owner_id admin)
  pub clones :
      (id owner_id : ℕ) (overrides : CreateInput) → Does R (Service.clone id owner_id overrides)

module _ {R : World → World → Type 0} (frame : Frame R) (o : Operations R) where
  reads-Does : {A : Type 0} (m : Action A) → Does OnlyReads m → Does R m
  reads-Does m d = record { at = λ env w. o.reads w (m env w).1 (d.at env w) }

  rollback_known-Does :
      (user : User) (event_id : ℕ) (ev : EventDetail) (r : Result Job)
      → Does R (Events.rollback_known user event_id ev r)
  unfolding Events.rollback_known
  rollback_known-Does user event_id ev (err _) = search does_rules
  rollback_known-Does user event_id ev (ok job) =
      Does-if (not (job.event_id == event_id)) _ _ (search does_rules)
        (let creates = o.creates in search does_rules depth 9)

  rollback_allowed-Does :
      (user : User) (event_id job_id : ℕ) (r : Result EventDetail)
      → Does R (Events.rollback_allowed user event_id job_id r)
  unfolding Events.rollback_allowed
  rollback_allowed-Does user event_id job_id (err _) = search does_rules
  rollback_allowed-Does user event_id job_id (ok ev) =
      let found = reads-Does _ (get_job-OnlyReads job_id) in
      Does-if (Events.forbidden user ev) _ _ (search does_rules)
        (search (does_rules, rollback_known-Does) depth 9)

  create_event-Does :
      (user : User) (req : Option Events.CreateEventRequest) → Does R (Events.create user req)
  unfolding Events.create
  create_event-Does user none = search does_rules
  create_event-Does user (some req) = let creates = o.creates in search does_rules depth 9

  handle_user-Does : (s : Settings) (r : UserRequest) (user : User) → Does R (handle_user s r user)
  unfolding handle_user
  handle_user-Does s (instances_post req) user =
      answer-Does frame _ _ (create-Does user s.encryption_key frame (o.writes user.id) req)
  handle_user-Does s (bulk_post csv) user =
      answer-Does frame _ _ (bulk_create-Does user s.encryption_key frame (o.writes user.id) csv)
  handle_user-Does s (instance_put id req) user =
      answer-Does frame _ _ (update-Does user s.encryption_key frame (o.writes user.id) id req)
  handle_user-Does s (instance_delete id) user =
      answer-Does frame _ _ (delete-Does user s.encryption_key frame (o.writes user.id) id)
  handle_user-Does s (events_post req) user = answer-Does frame _ _ (create_event-Does user req)
  handle_user-Does s (rerun_post id) user =
      answer-Does frame _ _
        (unfold Events.rerun_failed in let reruns = o.reruns in search does_rules depth 9)
  handle_user-Does s (clone_post id req) user =
      answer-Does frame _ _
        (unfold Events.clone in let clones = o.clones in search does_rules depth 9)
  handle_user-Does s (rollback_post id job_id) user =
      let found = reads-Does _ (get_event-OnlyReads id) in
      answer-Does frame _ _
        (unfold Events.rollback_job in search (does_rules, rollback_allowed-Does) depth 9)
  handle_user-Does s instances_get user =
      reads-Does _ (handle_query-OnlyReads s instances_get user refl)
  handle_user-Does s (events_get q) user =
      reads-Does _ (handle_query-OnlyReads s (events_get q) user refl)
  handle_user-Does s (event_get id) user =
      reads-Does _ (handle_query-OnlyReads s (event_get id) user refl)

  pub serve-Does : (s : Settings) (header : String) (r : Request) → Does R (serve s header r)
  serve-Does s header health = reads-Does _ (serve_queries s header health refl)
  serve-Does s header (post_login req) = reads-Does _ (serve_queries s header (post_login req) refl)
  serve-Does s header (admin r) = reads-Does _ (serve_queries s header (admin r) refl)
  serve-Does s header (protected r) =
      unfold serve in
      require_auth-Does frame s.jwt_secret (handle_user s r) (handle_user-Does s r) header
