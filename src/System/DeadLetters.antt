-- ===== src/System/DeadLetters.antt =====
-- Where the messages end that a worker takes from its queue.
use otel_forge.Prelude.{
  ℕ, zero, suc, ◌*◌, ◌≤◌, ◌≡◌, refl, ap, ◌⊎◌, inl, inr, List, [], ◌∷◌, All, count, length, arith,
}
use otel_forge.Models.{Bytes}
use otel_forge.Action.{Env, World, Delivery}
use otel_forge.Queue.{deliver, consume}
use otel_forge.Queue.Progress.{IsCounted}
use otel_forge.Queue.Fate.{held}
use otel_forge.Runner.Worker.{work, worker_drains}
use otel_forge.System.Custody.{is_for, JobDone, on_delivery_lem}

module _ (key : Bytes) (job_id : ℕ) (env : Env) where
  deliver_kept :
      (q : List Delivery) (w : World)
      → w.ready ≡ q
      → (held (is_for job_id) (deliver (work key) q env w).1 ≡ held (is_for job_id) w)
        ⊎ JobDone job_id (deliver (work key) q env w).1
  unfolding deliver
  deliver_kept [] w e = inl (omega arith)
  deliver_kept (d ∷ rest) w e =
      elim (on_delivery_lem job_id key d d.body env (record w { ready = rest }) refl) [
        | inl back ↦
            inl (omega (arith, back, ap (count (λ (d : Delivery). is_for job_id d.body)) e))
        | inr done ↦ inr done
      ]

  consume_kept :
      (n : ℕ) (w : World)
      → (held (is_for job_id) (consume n (work key) env w).1 ≡ held (is_for job_id) w)
        ⊎ ((k : ℕ) × (1 ≤ k) × (k ≤ n) × JobDone job_id (consume k (work key) env w).1)
  unfolding consume
  consume_kept zero w = inl (omega arith)
  consume_kept (suc n) w =
      let u = (deliver (work key) w.ready env w).1 in
      elim (deliver_kept w.ready w refl) [
        | inr done ↦ inr (1, omega arith, omega arith, done)
        | inl first_kept ↦ elim (consume_kept n u) [
          | inl rest_kept ↦ inl (omega (arith, first_kept, rest_kept))
          | inr (k, one, small, done) ↦ inr (suc k, omega arith, omega arith, done)
        ]
      ]

  -- Where the messages on the main queue have no retry count or one that `Consume` wrote, and
  -- whichever calls fail, three deliveries for each of them empty it, and no message for the job is
  -- lost: either the dead-letter queue then holds as many for it as the two queues held, or by then,
  -- after one of the deliveries, the job had ended, as verified or as failed, and its event's row
  -- had the status and the counts that the event's jobs called for.
  pub messages_end :
      (w : World)
      → All IsCounted w.ready
      → let n = 3 * length w.ready in
        let w' = (consume n (work key) env w).1 in
        (w'.ready ≡ [])
        × ((count (λ (d : Delivery). is_for job_id d.body) w'.dead ≡ held (is_for job_id) w)
            ⊎ ((k : ℕ) × (1 ≤ k) × (k ≤ n) × JobDone job_id (consume k (work key) env w).1))
  messages_end w counted =
      let n = 3 * length w.ready in
      let (empty, _) = worker_drains key env w counted in
      (
        empty,
        elim (consume_kept n w) [
          | inl kept ↦
              inl (omega (arith, kept, ap (count (λ (d : Delivery). is_for job_id d.body)) empty))
          | inr done ↦ inr done
        ],
      )
