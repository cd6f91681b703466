-- ===== src/System/Deliveries.antt =====
-- A delivery keeps the messages of jobs that are in the tables.
use otel_forge.Prelude.{
  ℕ, ◌+◌, ◌≡◌, refl, sym, subst, Option, none, some, List, [], ◌∷◌, map, All, All-append, All-map,
  All-pick, Bool-cases, inl, inr,
}
use otel_forge.Prelude.Int.{ℤ, leb_ℤ, suc_ℤ}
use otel_forge.Models.{Bytes}
use otel_forge.Action.{Env, World, JobMessage, Delivery, pure, ignore, Result, ok, err, ◌>>=◌}
use otel_forge.Queue.{
  enqueue, nack, ack, after_republish, with_count, settle_delivery, on_delivery, deliver,
  max_delivery_attempts,
}
use otel_forge.Queue.RetryCount.{delivery_retry_count}
use otel_forge.Runner.Frame.{job_key}
use otel_forge.Runner.Worker.{work}
use otel_forge.Runner.Untouched.{handle_untouched}
use otel_forge.Runner.Worker.{on_delivery-Does}
use otel_forge.Pool.{
  Pool, on_cut_off, Turn, takes, settles, loses_channel, runs_out, closes, stops, returns, restarts,
}
use otel_forge.System.Messages.{IsKnown, AllKnown, Tracks, same-Tracks}

module _ (d : Delivery) (env : Env) where
  nack-AllKnown :
      (w : World) → IsKnown (map job_key w.jobs) d.body → AllKnown w → AllKnown (nack d env w).1
  unfolding nack
  nack-AllKnown w k a = record {
    ready_known = a.ready_known;
    dead_known = All-append _ w.dead _ a.dead_known (k, tt);
  }

  again-AllKnown :
      (n : ℤ) (r : Result ℕ) (w : World)
      → IsKnown (map job_key w.jobs) d.body
      → AllKnown w
      → AllKnown (after_republish d (with_count d n) r env w).1
  unfolding after_republish with_count enqueue ack ◌>>=◌
  again-AllKnown n (ok _) w k a = record {
    ready_known = All-append _ w.ready _ a.ready_known (k, tt);
    dead_known = a.dead_known;
  }
  again-AllKnown n (err _) w k a = nack-AllKnown w k a

  settle-AllKnown :
      (r : Result (Unit {0})) (w : World)
      → IsKnown (map job_key w.jobs) d.body
      → AllKnown w
      → AllKnown (settle_delivery d r env w).1
  unfolding settle_delivery ack ◌>>=◌
  settle-AllKnown (ok _) w k a = a
  settle-AllKnown (err _) w k a =
      let retry = delivery_retry_count d.headers in
      elim (Bool-cases (leb_ℤ max_delivery_attempts (suc_ℤ retry))) [
        | inl last ↦ rw last (nack-AllKnown w k a)
        | inr not_last ↦ rw not_last (
            again-AllKnown (suc_ℤ retry) _ (record w { calls = w.calls + 1 }) k
              (record { ready_known = a.ready_known; dead_known = a.dead_known }))
      ]

  on_delivery-AllKnown :
      (key : Bytes) (body : Option JobMessage) (w : World)
      → IsKnown (map job_key w.jobs) d.body
      → AllKnown w
      → AllKnown (on_delivery (work key) body d env w).1
  unfolding on_delivery work ◌>>=◌
  on_delivery-AllKnown key none w k a = nack-AllKnown w k a
  on_delivery-AllKnown key (some m) w k a =
      let kept = (handle_untouched key m.job_id).at env w in
      let u = (otel_forge.Runner.handle key m.job_id env w).1 in
      settle-AllKnown _ u (subst (λ keys. IsKnown keys d.body) (sym kept.keys_same.job_keys) k)
        ((same-Tracks w u kept.keys_same.job_keys kept.ready_same kept.dead_same).tracks a)

pub deliver-AllKnown :
    (key : Bytes) (q : List Delivery) (env : Env) (w : World)
    → w.ready ≡ q
    → AllKnown w
    → AllKnown (deliver (work key) q env w).1
unfolding deliver
deliver-AllKnown key [] env w e a = a
deliver-AllKnown key (d ∷ rest) env w e a =
    let known : All (λ (d : Delivery). IsKnown (map job_key w.jobs) d.body) (d ∷ rest) =
      subst (All (λ (d : Delivery). IsKnown (map job_key w.jobs) d.body)) e a.ready_known in
    on_delivery-AllKnown d env key d.body (record w { ready = rest }) known.0
      (record { ready_known = known.1; dead_known = a.dead_known })

-- The messages on the queues and those that a goroutine works on.
pub record PoolKnown (s : Pool) : Type 0 where
  pub queues : AllKnown s.world
  pub unsettled : All (λ (d : Delivery). IsKnown (map job_key s.world.jobs) d.body) s.unsettled

-- A handler without a channel touches no queue.
cut_off-Tracks :
    (key : Bytes) (body : Option JobMessage) (env : Env) (w : World)
    → Tracks w (on_cut_off (work key) body env w).1
unfolding on_cut_off work pure ignore
cut_off-Tracks key none env w = same-Tracks w w refl refl refl
cut_off-Tracks key (some m) env w =
    let kept = (handle_untouched key m.job_id).at env w in
    same-Tracks w _ kept.keys_same.job_keys kept.ready_same kept.dead_same

abbrev Known : World → Delivery → Type 0
Known w d = IsKnown (map job_key w.jobs) d.body

pub Turn-PoolKnown : (c : ℕ) (s s' : Pool) → Turn c s s' → PoolKnown s → PoolKnown s'
Turn-PoolKnown c s _ (takes _ n d rest some_wait first) k =
    let known : All (λ (d : Delivery). IsKnown (map job_key s.world.jobs) d.body) (d ∷ rest) =
      subst (All (λ (d : Delivery). IsKnown (map job_key s.world.jobs) d.body)) first
        k.queues.ready_known in
    record {
      queues = record { ready_known = known.1; dead_known = k.queues.dead_known };
      unsettled = (known.0, k.unsettled);
    }
Turn-PoolKnown c s _ (settles _ before behind d key env at) k =
    let (here, rest) =
      All-pick (Known s.world) before behind (subst (All (Known s.world)) at k.unsettled) in
    record {
      queues = on_delivery-AllKnown d env key d.body s.world here k.queues;
      unsettled = rw ((on_delivery-Does key d.body d).at env s.world).keys.job_keys rest;
    }
Turn-PoolKnown c s _ (loses_channel _ before behind d at) k =
    let (here, rest) =
      All-pick (Known s.world) before behind (subst (All (Known s.world)) at k.unsettled) in
    record {
      queues = record {
        ready_known = (here, k.queues.ready_known);
        dead_known = k.queues.dead_known;
      };
      unsettled = rest;
    }
Turn-PoolKnown c s _ (runs_out _ before behind d key env at) k =
    let t = cut_off-Tracks key d.body env s.world in
    record {
      queues = t.tracks k.queues;
      unsettled = All-map s.unsettled (λ d. t.still_known d.body) k.unsettled;
    }
Turn-PoolKnown c s _ (closes _ n some_wait) k = record {
  queues = k.queues;
  unsettled = k.unsettled;
}
Turn-PoolKnown c s _ (stops _) k = record { queues = k.queues; unsettled = k.unsettled }
Turn-PoolKnown c s _ (returns _ n stopping some_wait) k = record {
  queues = k.queues;
  unsettled = k.unsettled;
}
Turn-PoolKnown c s _ (restarts _ all) k = record { queues = k.queues; unsettled = k.unsettled }
