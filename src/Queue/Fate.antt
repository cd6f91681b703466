-- ===== src/Queue/Fate.antt =====
-- What settles a delivery that has failed puts its message back on one of the queues.
use otel_forge.Prelude.{
  ℕ, zero, suc, ◌+◌, ◌≡◌, ◌∙◌, refl, ap, ◌⊎◌, inl, inr, Bool, true, false, Option, none, some, List,
  [], ◌∷◌, ◌++◌, count, count-append, Bool-cases, Option-cases, arith, if◌then◌else◌,
}
use otel_forge.Prelude.Int.{leb_ℤ, suc_ℤ}
use otel_forge.Action.{Env, World, JobMessage, Delivery, Error, Result, ok, err, ◌>>=◌}
use otel_forge.Queue.{
  enqueue, nack, ack, after_republish, with_count, settle_delivery, max_delivery_attempts,
}
use otel_forge.Queue.RetryCount.{delivery_retry_count}

-- How often bodies that meet the test stand in the two queues.
abbrev pub held : (Option JobMessage → Bool) → World → ℕ
held p w = count (λ d. p d.body) w.ready + count (λ d. p d.body) w.dead

abbrev pub here : (Option JobMessage → Bool) → Delivery → ℕ
here p d = if p d.body then 1 else 0

module _ (p : Option JobMessage → Bool) where
  pub held-nack :
      (d : Delivery) (env : Env) (w : World) → held p (nack d env w).1 ≡ held p w + here p d
  unfolding nack
  held-nack d env w = omega (arith, count-append {0} (λ (d : Delivery). p d.body) w.dead (d ∷ []))

  held-enqueue :
      (d : Delivery) (env : Env) (w : World) → held p (enqueue d env w).1 ≡ held p w + here p d
  unfolding enqueue
  held-enqueue d env w =
      omega (arith, count-append {0} (λ (d : Delivery). p d.body) w.ready (d ∷ []))

  held-again :
      (d : Delivery) (n : otel_forge.Prelude.Int.ℤ) (r : Result ℕ) (env : Env) (w : World)
      → held p (after_republish d (with_count d n) r env w).1 ≡ held p w + here p d
  unfolding after_republish with_count ack ◌>>=◌ enqueue
  held-again d n (ok _) env w = held-enqueue (with_count d n) env w
  held-again d n (err _) env w = held-nack d env w

  pub held-settle :
      (d : Delivery) (e : Error) (env : Env) (w : World)
      → held p (settle_delivery d (err e) env w).1 ≡ held p w + here p d
  unfolding settle_delivery ◌>>=◌
  held-settle d e env w =
      let retry = delivery_retry_count d.headers in
      elim (Bool-cases (leb_ℤ max_delivery_attempts (suc_ℤ retry))) [
        | inl last ↦ rw last (held-nack d env w)
        | inr not_last ↦
            rw not_last (held-again d (suc_ℤ retry) _ env (record w { calls = w.calls + 1 }))
      ]
