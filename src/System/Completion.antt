-- ===== src/System/Completion.antt =====
-- What a worker whose calls do not fail makes of the messages on the queue, and of a new event.
use otel_forge.Prelude.{
  ℕ, ◌≡◌, refl, sym, subst, true, Option, none, some, List, [], ◌∷◌, map, All, All-first, exists,
  length,
}
use otel_forge.Models.{Bytes}
use otel_forge.Action.{Env, World, Db, JobMessage, Delivery, ok, ◌>>=◌}
use otel_forge.Store.Jobs.{job_has_id}
use otel_forge.Queue.{nack, ack, settle_delivery, on_delivery, deliver, consume}
use otel_forge.Runner.{handle}
use otel_forge.Runner.Conclusion.{HasEnded, Concluded}
use otel_forge.Runner.Frame.{job_key, event_key, instance_key}
use otel_forge.Runner.Handle.{handle-Handled}
use otel_forge.Runner.Liveness.{NothingFails, handle_returns}
use otel_forge.Runner.Others.{OthersSame}
use otel_forge.Runner.Settled.{IsOf-jobs, Concluded-kept, ended-kept}
use otel_forge.Runner.Untouched.{handle_untouched}
use otel_forge.Runner.Worker.{work}
use otel_forge.System.Owners.{AllOneOwner}
use otel_forge.System.Reached.{job_OneOwner}
use otel_forge.System.Messages.{names, IsKnown}
use otel_forge.System.Distinct.{JobsDistinct}
use otel_forge.System.Serving.{Sound, deliver-Sound, known-IsOf, first_named, first_owned}

-- What the worker has done for a message: nothing where it cannot be read.
abbrev pub Served : Option JobMessage → World → Type 0
Served none w = Unit
Served (some m) w = Concluded m.job_id m.event_id w

-- Every row of the job has ended.
abbrev pub EndedFor : ℕ → World → Type 0
EndedFor id w = All (λ j. job_has_id id j ≡ true → HasEnded j) w.jobs

Served-db : (b : Option JobMessage) (w u : World) → u.db ≡ w.db → Served b w → Served b u
Served-db none w u same h = tt
Served-db (some m) w u same h = record {
  ended =
      subst (λ (d : Db). All (λ j. job_has_id m.job_id j ≡ true → HasEnded j) d.jobs) (sym same)
        h.ended;
  rolled =
      subst (λ (d : Db). otel_forge.Store.Rollup.Summary.RolledUp m.event_id d) (sym same) h.rolled;
}

-- One delivery: its message is served, and what was served is.
record ServesOne (d : Delivery) (w u : World) : Type 0 where
  served : Served d.body u
  kept : (b : Option JobMessage) → Served b w → Served b u
  ended_kept : (id : ℕ) → EndedFor id w → EndedFor id u
  ready_same : u.ready ≡ w.ready

module _ (key : Bytes) (env : Env) (nf : NothingFails env) where
  -- The handler returns nil for a message that names a job.
  handle_named :
      (m : JobMessage) (w : World)
      → AllOneOwner w
      → JobsDistinct w
      → exists (names m) (map job_key w.jobs) ≡ true
      → ((handle key m.job_id env w).0 ≡ ok tt)
        × Concluded m.job_id m.event_id (handle key m.job_id env w).1
        × OthersSame m.job_id m.event_id w (handle key m.job_id env w).1
  handle_named m w owners distinct named =
      let (job, found) = first_named m w.jobs named in
      let one = job_OneOwner _ _ m.job_id w.jobs owners found in
      let (ev, event_found) = first_owned event_key job.event_id w.events one.of_event in
      let (inst, instance_found) =
        first_owned instance_key job.instance_id w.instances one.of_instance in
      let returned = handle_returns env nf key m.job_id w found event_found instance_found in
      let (job', done) = handle-Handled key m.job_id env w returned in
      let right : job'.event_id ≡ m.event_id =
        All-first (λ j. j.event_id ≡ m.event_id) (job_has_id m.job_id) w.jobs
          (IsOf-jobs m.job_id m.event_id w.jobs (known-IsOf m (map job_key w.jobs) distinct named))
          done.found in
      let w' = (handle key m.job_id env w).1 in
      (
        returned,
        subst (λ i. Concluded m.job_id i w') right done.concluded,
        subst (λ i. OthersSame m.job_id i w w') right done.others_same,
      )

  on_delivery-serves :
      (d : Delivery) (b : Option JobMessage) (w : World)
      → d.body ≡ b
      → AllOneOwner w
      → JobsDistinct w
      → IsKnown (map job_key w.jobs) b
      → ServesOne d w (on_delivery (work key) b d env w).1
  unfolding on_delivery nack work settle_delivery ack ◌>>=◌
  on_delivery-serves d none w e owners distinct known = record {
    served = rw e tt;
    kept = λ b h. Served-db b w _ refl h;
    ended_kept = λ id h. h;
    ready_same = refl;
  }
  on_delivery-serves d (some m) w e owners distinct named =
      let (returned, concluded, others) = handle_named m w owners distinct named in
      let untouched = (handle_untouched key m.job_id).at env w in
      rw returned (record {
        served = rw e concluded;
        kept = λ b h. go b h others untouched.keys_same.job_keys concluded;
        ended_kept = λ id h. ended-kept m.job_id m.event_id id w _ others concluded h;
        ready_same = untouched.ready_same;
      })
    where
      go :
          (b : Option JobMessage)
          → Served b w
          → OthersSame m.job_id m.event_id w (handle key m.job_id env w).1
          → map job_key (handle key m.job_id env w).1.jobs ≡ map job_key w.jobs
          → Concluded m.job_id m.event_id (handle key m.job_id env w).1
          → Served b (handle key m.job_id env w).1
      go none h others keys concluded = tt
      go (some n) h others keys concluded =
          Concluded-kept m.job_id m.event_id n.job_id n.event_id w _ others keys
            (known-IsOf m (map job_key w.jobs) distinct named) concluded h

  deliver-serves :
      (d : Delivery) (rest : List Delivery) (w : World)
      → w.ready ≡ d ∷ rest
      → Sound w
      → let u = (deliver (work key) w.ready env w).1 in
        (u.ready ≡ rest)
        × Served d.body u
        × ((b : Option JobMessage) → Served b w → Served b u)
        × ((id : ℕ) → EndedFor id w → EndedFor id u)
  unfolding deliver
  deliver-serves d rest w e sound =
      let w' = record w { ready = rest } in
      let known : All (λ (d : Delivery). IsKnown (map job_key w.jobs) d.body) (d ∷ rest) =
        subst (All (λ (d : Delivery). IsKnown (map job_key w.jobs) d.body)) e
          sound.known.ready_known in
      let one = on_delivery-serves d d.body w' refl sound.one_owner sound.distinct known.0 in
      rw e (one.ready_same, one.served, λ b h. one.kept b (Served-db b _ w' refl h), one.ended_kept)

  -- As many deliveries as there are messages serve them all.
  pub consume-serves :
      (q : List Delivery) (w : World)
      → w.ready ≡ q
      → Sound w
      → let u = (consume (length q) (work key) env w).1 in
        (u.ready ≡ [])
        × All (λ (d : Delivery). Served d.body u) q
        × ((b : Option JobMessage) → Served b w → Served b u)
        × ((id : ℕ) → EndedFor id w → EndedFor id u)
  unfolding consume
  consume-serves [] w e sound = (e, tt, λ b h. h, λ id h. h)
  consume-serves (d ∷ rest) w e sound =
      let u = (deliver (work key) w.ready env w).1 in
      let (ready, served, kept, ended) = deliver-serves d rest w e sound in
      let (empty, rest_served, rest_kept, rest_ended) =
        consume-serves rest u ready (deliver-Sound key env w sound) in
      (
        empty,
        (rest_kept d.body served, rest_served),
        λ b h. rest_kept b (kept b h),
        λ id h. rest_ended id (ended id h),
      )
