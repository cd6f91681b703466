-- ===== src/Runner/Worker.antt =====
-- worker/cmd/worker/main.go: the consumer with `Handle` as its handler.
use otel_forge.Prelude.{ℕ, zero, suc, ◌*◌, ◌≡◌, Option, none, some, List, [], ◌∷◌, All, length}
use otel_forge.Prelude.Int.{suc_ℤ, leb_ℤ}
use otel_forge.Models.{Bytes}
use otel_forge.Action.{Env, World, JobMessage, Delivery, Action, Result, ok, err, try, call, ◌>>=◌}
use otel_forge.Action.Rules.{Frame, Does, Does-if, does_rules}
use otel_forge.Queue.{
  enqueue, nack, ack, after_republish, with_count, settle_delivery, on_delivery, deliver, consume,
  max_delivery_attempts,
}
use otel_forge.Queue.RetryCount.{delivery_retry_count}
use otel_forge.Queue.Progress.{KeepsQueues, IsCounted}
use otel_forge.Queue.Drain.{consume_drains}
use otel_forge.Runner.{handle}
use otel_forge.Runner.Frame.{SameKeys, same_keys, SameKeys-then}
use otel_forge.Runner.Untouched.{handle_untouched}

-- `func(msg) error { return run.Handle(ctx, msg.JobID) }`
unfoldable pub work : Bytes → JobMessage → Action (Unit {0})
work encryption_key msg = handle encryption_key msg.job_id

pub work_quiet : (key : Bytes) (m : JobMessage) → Does KeepsQueues (work key m)
unfolding work
work_quiet key m = record {
  at = λ env w.
      let kept = (handle_untouched key m.job_id).at env w in
      record { ready_same = kept.ready_same; dead_same = kept.dead_same };
}

-- The tables keep their keys; the queues may change.
pub record DbKeys (w w' : World) : Type 0 where
  pub keys : SameKeys w.db w'.db

pub DbKeys-Frame : Frame DbKeys
DbKeys-Frame = record {
  same = λ w. record { keys = same_keys w.db };
  then_ = λ u v w h k. record { keys = SameKeys-then h.keys k.keys };
  counted = λ w n. record { keys = same_keys w.db };
}

nack-Does : (d : Delivery) → Does DbKeys (nack d)
unfolding nack
nack-Does d = record { at = λ env w. record { keys = same_keys w.db } }

enqueue-Does : (d : Delivery) → Does DbKeys (enqueue d)
unfolding enqueue
enqueue-Does d = record { at = λ env w. record { keys = same_keys w.db } }

ack-Does : (d : Delivery) → Does DbKeys (ack d)
unfolding ack
ack-Does d = search (does_rules, DbKeys-Frame)

ruleset settling = (does_rules, DbKeys-Frame, nack-Does, enqueue-Does, ack-Does)

after_republish-Does : (d d' : Delivery) (r : Result ℕ) → Does DbKeys (after_republish d d' r)
unfolding after_republish
after_republish-Does d d' (ok _) = search settling
after_republish-Does d d' (err _) = search settling

settle_delivery-Does : (d : Delivery) (r : Result (Unit {0})) → Does DbKeys (settle_delivery d r)
unfolding settle_delivery
settle_delivery-Does d (ok _) = search settling
settle_delivery-Does d (err _) =
    let retry = delivery_retry_count d.headers in
    Does-if (leb_ℤ max_delivery_attempts (suc_ℤ retry)) (nack d)
      (try call >>= after_republish d (with_count d (suc_ℤ retry))) (nack-Does d)
      (search (settling, after_republish-Does))

pub work-Does : (key : Bytes) (m : JobMessage) → Does DbKeys (work key m)
unfolding work
work-Does key m = record {
  at = λ env w. record { keys = ((handle_untouched key m.job_id).at env w).keys_same };
}

pub on_delivery-Does :
    (key : Bytes) (body : Option JobMessage) (d : Delivery)
    → Does DbKeys (on_delivery (work key) body d)
unfolding on_delivery
on_delivery-Does key none d = search settling
on_delivery-Does key (some m) d = search (settling, work-Does, settle_delivery-Does)

pub deliver_keys :
    (key : Bytes) (q : List Delivery) (env : Env) (w : World)
    → SameKeys w.db (deliver (work key) q env w).1.db
unfolding deliver
deliver_keys key [] env w = same_keys w.db
deliver_keys key (d ∷ rest) env w =
    ((on_delivery-Does key d.body d).at env (record w { ready = rest })).keys

pub consume_keys :
    (key : Bytes) (n : ℕ) (env : Env) (w : World) → SameKeys w.db (consume n (work key) env w).1.db
unfolding consume
consume_keys key zero env w = same_keys w.db
consume_keys key (suc n) env w =
    let u = (deliver (work key) w.ready env w).1 in
    let first_step : DbKeys w u = record { keys = deliver_keys key w.ready env w } in
    (DbKeys-Frame.then_ w u (consume n (work key) env u).1 first_step
      (record { keys = consume_keys key n env u })).keys

-- A worker whose queue holds messages with no retry count, or one that `Consume` wrote, has an
-- empty queue after three deliveries for each, whatever the nodes answer and whichever calls fail.
-- It has then added and removed no user, instance, event, job or link of an event to an instance,
-- changed no identifier and no owner of these rows, and of the checks of jobs only added some.
pub worker_drains :
    (key : Bytes) (env : Env) (w : World)
    → All IsCounted w.ready
    → let w' = (consume (3 * length w.ready) (work key) env w).1 in
      (w'.ready ≡ []) × SameKeys w.db w'.db
worker_drains key env w h =
    (consume_drains (work key) (work_quiet key) env w h, consume_keys key _ env w)
