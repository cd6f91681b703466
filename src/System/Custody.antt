-- ===== src/System/Custody.antt =====
-- A message leaves the queues and the worker only when its job has ended.
use otel_forge.Prelude.{
  ℕ, ◌+◌, ◌≤◌, ◌≡◌, ◌∙◌, refl, ap, ◌⊎◌, inl, inr, Bool, false, ◌==◌, ==_iff, Option, none, some,
  List, ◌∷◌, ◌++◌, count, count-append, first, Bool-cases, arith,
}
use otel_forge.Models.{Bytes, Job}
use otel_forge.Action.{Env, World, JobMessage, Delivery, ok, pure, ignore, ◌>>=◌}
use otel_forge.Action.Rules.{Result-cases}
use otel_forge.Store.Jobs.{job_has_id}
use otel_forge.Store.Rollup.Summary.{RolledUp}
use otel_forge.Queue.{ack, settle_delivery, on_delivery}
use otel_forge.Queue.Fate.{held, here, held-nack, held-settle}
use otel_forge.Runner.{handle}
use otel_forge.Runner.Conclusion.{HasEnded}
use otel_forge.Runner.Handle.{handle_concludes}
use otel_forge.Runner.Worker.{work, work_quiet}
use otel_forge.Pool.{
  Pool, on_cut_off, Turn, takes, settles, loses_channel, runs_out, closes, stops, returns, restarts,
}
use otel_forge.System.{Step, request, turn, seeding, Reach, at_start, then_step}
use otel_forge.System.Sends.{Sends, Sends-Frame, operations, insert_user-Sends}
use otel_forge.System.Seeding.{seed-Does}
use otel_forge.System.Requests.{serve-Does}

-- The body is a message for the job.
abbrev pub is_for : ℕ → Option JobMessage → Bool
is_for job_id none = false
is_for job_id (some m) = m.job_id == job_id

-- How many messages for the job stand in the main queue, in the dead-letter queue and unsettled in
-- the worker.
abbrev pub messages_for : ℕ → Pool → ℕ
messages_for job_id s =
    held (is_for job_id) s.world + count (λ (d : Delivery). is_for job_id d.body) s.unsettled

-- The job has ended, and its event's row says so.
pub record JobDone (job_id : ℕ) (w : World) : Type 0 where
  pub job : Job
  pub found : first (job_has_id job_id) w.jobs ≡ some job
  pub has_ended : HasEnded job
  pub rolled : RolledUp job.event_id w.db

abbrev KeptOrDone : ℕ → Pool → Pool → Type 0
KeptOrDone job_id s s' = (messages_for job_id s ≤ messages_for job_id s') ⊎ JobDone job_id s'.world

module _ (job_id : ℕ) where
  count_without :
      (before behind : List Delivery) (d : Delivery)
      → count (λ (d : Delivery). is_for job_id d.body) (before ++ d ∷ behind)
        ≡ count (λ (d : Delivery). is_for job_id d.body) (before ++ behind) + here (is_for job_id) d
  count_without before behind d = omega (
    arith,
    count-append {0} (λ (d : Delivery). is_for job_id d.body) before (d ∷ behind),
    count-append {0} (λ (d : Delivery). is_for job_id d.body) before behind,
  )

  handled-JobDone :
      (key : Bytes) (env : Env) (w : World)
      → (handle key job_id env w).0 ≡ ok tt
      → JobDone job_id (handle key job_id env w).1
  handled-JobDone key env w h =
      let (job, job', _, found, same, ended, rolled) = handle_concludes key job_id env w h in
      record {
        job = job';
        found = found;
        has_ended = ended;
        rolled = rw (ap (λ (k : ℕ × ℕ × ℕ). k.1) same) rolled;
      }

  worked-held :
      (key : Bytes) (m : JobMessage) (env : Env) (w : World)
      → held (is_for job_id) (work key m env w).1 ≡ held (is_for job_id) w
  worked-held key m env w =
      let same = (work_quiet key m).at env w in
      omega (
        arith,
        ap (count (λ (d : Delivery). is_for job_id d.body)) same.ready_same,
        ap (count (λ (d : Delivery). is_for job_id d.body)) same.dead_same,
      )

  -- The turn of a goroutine puts the message back, unless its job is done.
  pub on_delivery_lem :
      (key : Bytes) (d : Delivery) (body : Option JobMessage) (env : Env) (w : World)
      → d.body ≡ body
      → (held (is_for job_id) (on_delivery (work key) body d env w).1
          ≡ held (is_for job_id) w + here (is_for job_id) d)
        ⊎ JobDone job_id (on_delivery (work key) body d env w).1
  unfolding on_delivery work settle_delivery ack ◌>>=◌
  on_delivery_lem key d none env w e = inl (held-nack (is_for job_id) d env w)
  on_delivery_lem key d (some m) env w e =
      let same = worked-held key m env w in
      let u = (handle key m.job_id env w).1 in
      elim (Result-cases (handle key m.job_id env w).0) [
        | inr (x, failed) ↦ rw failed (
            inl (held-settle (is_for job_id) d x env u ∙ ap (λ n. n + here (is_for job_id) d) same))
        | inl (_, done) ↦ elim (Bool-cases (m.job_id == job_id)) [
          | inl mine ↦
              (let it = (==_iff m.job_id job_id).0 mine in
                rw (done, it) (inr (handled-JobDone key env w (rw (← it) done))))
          | inr other ↦ rw (done, e) (inl (ground (arith, same, other)))
        ]
      ]

  cut_off-held :
      (key : Bytes) (body : Option JobMessage) (env : Env) (w : World)
      → held (is_for job_id) (on_cut_off (work key) body env w).1 ≡ held (is_for job_id) w
  unfolding on_cut_off pure ignore
  cut_off-held key none env w = refl
  cut_off-held key (some m) env w = worked-held key m env w

  Turn-KeptOrDone : (c : ℕ) (s s' : Pool) → Turn c s s' → KeptOrDone job_id s s'
  Turn-KeptOrDone c s _ (takes _ n d rest some_wait first_is) =
      inl (omega (arith, ap (count (λ (d : Delivery). is_for job_id d.body)) first_is))
  Turn-KeptOrDone c s _ (settles _ before behind d key env at) =
      elim (on_delivery_lem key d d.body env s.world refl) [
        | inr done ↦ inr done
        | inl back ↦ inl (
            omega (
              arith,
              back,
              ap (count (λ (d : Delivery). is_for job_id d.body)) at,
              count_without before behind d,
            ))
      ]
  Turn-KeptOrDone c s _ (loses_channel _ before behind d at) = inl (
      omega (
        arith,
        ap (count (λ (d : Delivery). is_for job_id d.body)) at,
        count_without before behind d,
      ))
  Turn-KeptOrDone c s _ (runs_out _ before behind d key env at) =
      inl (omega (arith, cut_off-held key d.body env s.world))
  Turn-KeptOrDone c s _ (closes _ n some_wait) = inl (omega arith)
  Turn-KeptOrDone c s _ (stops _) = inl (omega arith)
  Turn-KeptOrDone c s _ (returns _ n stopping some_wait) = inl (omega arith)
  Turn-KeptOrDone c s _ (restarts _ all) = inl (omega arith)

  -- The other processes only add messages.
  beside : (s : Pool) (w : World) → Sends s.world w → KeptOrDone job_id s (record s { world = w })
  beside s w more = inl (
      omega (
        arith,
        ap (count (λ (d : Delivery). is_for job_id d.body)) more.ready_then,
        ap (count (λ (d : Delivery). is_for job_id d.body)) more.dead_same,
        count-append {0} (λ (d : Delivery). is_for job_id d.body) s.world.ready more.more,
      ))

  Step-KeptOrDone : (c : ℕ) (s s' : Pool) → Step c s s' → KeptOrDone job_id s s'
  Step-KeptOrDone c s _ (request settings header r env _) =
      beside s _ ((serve-Does Sends-Frame operations settings header r).at env s.world)
  Step-KeptOrDone c s s' (turn t) = Turn-KeptOrDone c s s' t
  Step-KeptOrDone c s _ (seeding getenv email password role env _) =
      beside s _
        ((seed-Does Sends-Frame insert_user-Sends getenv email password role).at env s.world)

-- Whatever requests, turns of the worker's goroutines and seedings follow from any state, whichever
-- calls fail and channels close, no message is lost: either there are still as many messages for a
-- job on the main queue, on the dead-letter queue and unsettled in the worker, or on the way the
-- job has ended, as verified or as failed, and its event's row had the status and the counts that
-- the event's jobs called for.
pub messages_kept :
    (concurrency job_id : ℕ) (start s : Pool)
    → Reach concurrency start s
    → (messages_for job_id start ≤ messages_for job_id s)
      ⊎ ((t : Pool) × Reach concurrency start t × Reach concurrency t s × JobDone job_id t.world)
messages_kept c job_id start _ at_start = inl (omega arith)
messages_kept c job_id start s (then_step {s = t} r step) =
    elim (messages_kept c job_id start t r) [
      | inr (u, before, after, done) ↦ inr (u, before, then_step after step, done)
      | inl kept ↦ elim (Step-KeptOrDone job_id c t s step) [
        | inl now ↦ inl (omega (arith, kept, now))
        | inr done ↦ inr (s, then_step r step, at_start, done)
      ]
    ]
