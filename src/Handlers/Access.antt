-- ===== src/Handlers/Access.antt =====
-- What the handlers of events let a user see and do.
use otel_forge.Prelude.{
  ℕ, String, ◌≡◌, ◌⊎◌, inl, inr, refl, true, false, ◌==◌, ==_iff, Option, none, some, List, first,
  select, select-congr, order_by, arith, Bool-cases,
}
use otel_forge.Models.{is_admin, User, Event, EventDetail, EventFilter, JobDetail}
use otel_forge.Action.{Env, World, Result, ok, err, pure, try, ◌>>=◌}
use otel_forge.Action.Rules.{>>=-eq-ok}
use otel_forge.Store.Events.{event_has_id, get_event}
use otel_forge.Store.Events.Query.{newer}
use otel_forge.Store.Events.Filter.{matches, list_events_exact}
use otel_forge.Store.Jobs.{list_jobs_for_event}
use otel_forge.Service.Rerun.{get_event_row}
use otel_forge.Handlers.Replies.{json, text}
use otel_forge.Handlers.Events.{EventQuery, list_filter, list, forbidden, with_jobs, get_known, get}

-- An administrator, or the owner.
abbrev pub MayUse : User → Event → Type 0
MayUse user e = (is_admin user.role ≡ true) ⊎ (e.owner_id ≡ user.id)

pub allowed : (user : User) (ev : EventDetail) → forbidden user ev ≡ false → MayUse user ev.event
allowed user ev h = elim (Bool-cases (is_admin user.role)) [
  | inl admin ↦ inl admin
  | inr other ↦ inr ((==_iff ev.owner_id user.id).0 (ground arith))
]

with_jobs_json :
    (d : EventDetail) (r : Result (List JobDetail)) {n : ℕ} {ev : EventDetail}
    → with_jobs d r ≡ json n ev
    → (n ≡ 200) × (ev.event ≡ d.event)
with_jobs_json d (ok jobs) h = ground arith
with_jobs_json d (err e) h = cc

get_known_json :
    (user : User) (id : ℕ) (r : Result EventDetail) (env : Env) (w : World) {n : ℕ}
    {ev : EventDetail}
    → (get_known user id r env w).0 ≡ ok (json n ev)
    → (d : EventDetail) × (r ≡ ok d) × MayUse user d.event × (n ≡ 200) × (ev.event ≡ d.event)
unfolding get_known ◌>>=◌ pure
get_known_json user id (err e) env w h = cc
get_known_json user id (ok d) env w {n} {ev} h = elim (Bool-cases (forbidden user d)) [
  | inl refused ↦
      let answered : (get_known user id (ok d) env w).0 ≡ ok (text 403 "forbidden") =
        rw refused refl in
      cc
  | inr fine ↦
      let replied : with_jobs d (list_jobs_for_event id env w).0 ≡ json n ev = ground arith in
      let (status, same) = with_jobs_json d (list_jobs_for_event id env w).0 replied in
      (d, refl, allowed user d fine, status, same)
]

-- A user sees an event, in a reply of status 200, only as an administrator or as its owner, and
-- what the user sees is the row with the identifier that was asked for.
pub get_access :
    (user : User) (id : ℕ) (env : Env) (w : World) (n : ℕ) (ev : EventDetail)
    → (get user id env w).0 ≡ ok (json n ev)
    → (n ≡ 200) × MayUse user ev.event × (first (event_has_id id) w.events ≡ some ev.event)
unfolding get
get_access user id env w n ev h =
    let (r, tried, h1, _) = >>=-eq-ok (try (get_event id)) (get_known user id) env w h in
    let (d, known, may, status, same) =
      get_known_json user id r env (try (get_event id) env w).1 h1 in
    let got : (get_event id env w).0 ≡ ok d = unfold try in ground arith in
    (status, rw same may, rw same (get_event_row id env w got))

own_filter : User → EventFilter
own_filter user = record {
  owner_id = some user.id;
  launcher_email = "";
  status = "";
  task_type = "";
  from = none;
  to = none;
}

list_filter_own :
    (parse : String → Option ℕ) (user : User) (q : EventQuery)
    → is_admin user.role ≡ false
    → list_filter parse user q ≡ own_filter user
unfolding list_filter own_filter
list_filter_own parse user q plain = rw plain refl

own_matches :
    (env : Env) (user : User) (e : Event) → matches env (own_filter user) e ≡ e.owner_id == user.id
unfolding own_filter
own_matches env user e = ground arith

-- The list of a user who is no administrator, where the statement does not fail, is exactly the
-- events of that user, the newest first, whatever the query string asks for.
pub list_own_events :
    (parse : String → Option ℕ) (user : User) (q : EventQuery) (env : Env) (w : World)
    → is_admin user.role ≡ false
    → env.fault w.calls ≡ none
    → (list parse user q env w).0
      ≡ ok (json 200 (order_by newer (select (λ (e : Event). e.owner_id == user.id) w.events)))
unfolding list ◌>>=◌ pure try
list_own_events parse user q env w plain fine =
    let mine =
      select-congr (matches env (own_filter user)) (λ (e : Event). e.owner_id == user.id) w.events
        (own_matches env user) in
    rw (list_filter_own parse user q plain, list_events_exact (own_filter user) env w fine, mine)
      refl
