-- ===== src/Handlers/Rollback.antt =====
-- What the rollback of a job launches, and for whom.
use otel_forge.Prelude.{
  ℕ, ◌≡◌, ◌∙◌, inl, inr, refl, sym, ap, subst, ◌==◌, ==_iff, some, first, arith, Bool-cases,
}
use otel_forge.Models.{User, EventDetail, Job}
use otel_forge.Action.{Env, World, Result, Error, ok, err, pure, try, ◌>>=◌}
use otel_forge.Action.Rules.{Does, Does-try, >>=-eq-ok}
use otel_forge.Store.Events.{event_has_id, get_event}
use otel_forge.Store.Jobs.{job_has_id, get_job}
use otel_forge.Service.Checks.{OnlyReads, OnlyReads-Frame, Checked-OnlyReads, OwnedBy, reading}
use otel_forge.Service.Launch.{Launched, Launched-OnlyReads, create_launches}
use otel_forge.Service.Rerun.{get_event_row, get_event-OnlyReads}
use otel_forge.Handlers.Replies.{Reply, json, text, reply}
use otel_forge.Handlers.Events.{
  forbidden, rollback_input, rollback_known, rollback_allowed, rollback_job,
}
use otel_forge.Handlers.Access.{MayUse, allowed}

reply_json :
    {A : Type 0} (good bad : ℕ) (r : Result A) {n : ℕ} {a : A}
    → reply good bad r ≡ json n a
    → (n ≡ good) × (r ≡ ok a)
reply_json good bad (ok a) h = (cc, cc)
reply_json good bad (err e) h = cc

-- What follows the two checks.
abbrev launch_rollback : User → EventDetail → ℕ → Job → Env → World → Result EventDetail × World
launch_rollback user d event_id job = otel_forge.Service.create (rollback_input user d event_id job)

rollback_known_json :
    (user : User) (event_id : ℕ) (d : EventDetail) (r : Result Job) (env : Env) (w : World) {n : ℕ}
    {ev : EventDetail}
    → (rollback_known user event_id d r env w).0 ≡ ok (json n ev)
    → (job : Job) × (r ≡ ok job)
      × (job.event_id ≡ event_id)
      × (n ≡ 202)
      × ((launch_rollback user d event_id job env w).0 ≡ ok ev)
      × ((rollback_known user event_id d r env w).1 ≡ (launch_rollback user d event_id job env w).1)
unfolding rollback_known ◌>>=◌ pure
rollback_known_json user event_id d (err e) env w h = cc
rollback_known_json user event_id d (ok job) env w {n} {ev} h =
    elim (Bool-cases (job.event_id == event_id)) [
      | inl same ↦
          let replied : reply 202 400 (launch_rollback user d event_id job env w).0 ≡ json n ev =
            ground arith in
          let (status, made) = reply_json 202 400 _ replied in
          (job, refl, (==_iff job.event_id event_id).0 same, status, made, rw same refl)
      | inr other ↦
          let answered : (rollback_known user event_id d (ok job) env w).0
              ≡ ok (text 404 "not found") =
            rw other refl in
          cc
    ]

rollback_allowed_json :
    (user : User) (event_id job_id : ℕ) (r : Result EventDetail) (env : Env) (w : World) {n : ℕ}
    {ev : EventDetail}
    → (rollback_allowed user event_id job_id r env w).0 ≡ ok (json n ev)
    → (d : EventDetail) × (r ≡ ok d)
      × MayUse user d.event
      × ((rollback_allowed user event_id job_id r env w)
          ≡ rollback_known user event_id d (get_job job_id env w).0 env (get_job job_id env w).1)
unfolding rollback_allowed ◌>>=◌ pure
rollback_allowed_json user event_id job_id (err e) env w h = cc
rollback_allowed_json user event_id job_id (ok d) env w h = elim (Bool-cases (forbidden user d)) [
  | inl refused ↦
      let answered : (rollback_allowed user event_id job_id (ok d) env w).0
          ≡ ok (text 403 "forbidden") =
        rw refused refl in
      cc
  | inr fine ↦ (d, refl, allowed user d fine, rw fine refl)
]

get_job-OnlyReads : (id : ℕ) → Does OnlyReads (get_job id)
unfolding get_job
get_job-OnlyReads id = search reading depth 12

get_job_row :
    (id : ℕ) (env : Env) (w : World) {job : Job}
    → (get_job id env w).0 ≡ ok job
    → first (job_has_id id) w.jobs ≡ some job
unfolding get_job ◌>>=◌
get_job_row id env w h = ground arith

-- What a rollback that is accepted has done.
pub record RollbackLaunched (user : User) (event_id job_id : ℕ) (ev : EventDetail) (env : Env)
    (w w' : World) : Type 0 where
  pub source : EventDetail
  pub job : Job
  pub found : first (event_has_id event_id) w.events ≡ some source.event
  pub may_use : MayUse user source.event
  pub job_found : first (job_has_id job_id) w.jobs ≡ some job
  pub of_the_event : job.event_id ≡ event_id
  pub owned : OwnedBy user.id job.instance_id w
  pub launched : Launched (rollback_input user source event_id job) ev w w'

-- When a rollback is accepted, with status 202, the sender is an administrator or owns the event,
-- the job belongs to that event, its instance belongs to the sender, an administrator too, and the
-- rollback of that one instance has been launched as an event of the sender.
pub rollback_job_launches :
    (user : User) (event_id job_id : ℕ) (env : Env) (w : World) (n : ℕ) (ev : EventDetail)
    → (rollback_job user event_id job_id env w).0 ≡ ok (json n ev)
    → (n ≡ 202)
      × RollbackLaunched user event_id job_id ev env w (rollback_job user event_id job_id env w).1
unfolding rollback_job rollback_input
rollback_job_launches user event_id job_id env w n ev h =
    let (r, tried, h1, e1) =
      >>=-eq-ok (try (get_event event_id)) (rollback_allowed user event_id job_id) env w h in
    let u = (try (get_event event_id) env w).1 in
    let (d, known, may, e2) = rollback_allowed_json user event_id job_id r env u h1 in
    let v = (get_job job_id env u).1 in
    let (job, got_job, same_event, status, made, e3) =
      rollback_known_json user event_id d (get_job job_id env u).0 env v (rw (← e2) h1) in
    let read1 = (Does-try _ (get_event-OnlyReads event_id)).at env w in
    let read2 = (get_job-OnlyReads job_id).at env u in
    let read = OnlyReads-Frame.then_ w u v read1 read2 in
    let i = rollback_input user d event_id job in
    let (checked, launched) = create_launches i env v ev made in
    let checked_first = Checked-OnlyReads i env w v read checked in
    let got : (get_event event_id env w).0 ≡ ok d = unfold try in ground arith in
    let at_end = ap (λ (o : Result (Reply EventDetail) × World). o.1) (e1 ∙ e2) ∙ e3 in
    (
      status,
      subst (λ x. RollbackLaunched user event_id job_id ev env w x) (sym at_end)
          (record {
            source = d;
            job = job;
            found = get_event_row event_id env w got;
            may_use = may;
            job_found =
                subst (λ (x : otel_forge.Action.Db). first (job_has_id job_id) x.jobs ≡ some job)
                  read1.db_same (get_job_row job_id env u got_job);
            of_the_event = same_event;
            owned = checked_first.all_owned.0;
            launched = Launched-OnlyReads i ev w v _ read launched;
          }),
    )
