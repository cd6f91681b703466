-- ===== src/Queue/Drain.antt =====
-- The consumer empties the queue, whatever its handler returns.
use otel_forge.Prelude.{
  ℕ, zero, suc, ◌*◌, ◌≤◌, ◌<◌, ◌≡◌, ◌∙◌, refl, ap, Option, none, some, List, [], ◌∷◌, ◌++◌, All,
  All-append, arith, length,
}
use otel_forge.Action.{Env, World, JobMessage, Delivery, Action, ◌>>=◌}
use otel_forge.Action.Rules.{Does}
use otel_forge.Queue.{nack, on_delivery, deliver, consume}
use otel_forge.Queue.Progress.{
  KeepsQueues, IsCounted, attempts_left, total_left, total_left-append, Progresses, gone,
  settle-Progresses,
}

attempts_pos : (d : Delivery) → IsCounted d → 0 < attempts_left d
attempts_pos d c = rw c.counted (omega (arith, c.small))

attempts_le : (d : Delivery) → IsCounted d → attempts_left d ≤ 3
attempts_le d c = rw c.counted (omega arith)

module _ (handler : JobMessage → Action (Unit {0}))
    (quiet : (m : JobMessage) → Does KeepsQueues (handler m)) where
  on_delivery-Progresses :
      (d : Delivery)
      → IsCounted d
      → (body : Option JobMessage) (env : Env) (w : World)
      → Progresses d w (on_delivery handler body d env w).1
  unfolding on_delivery nack ◌>>=◌
  on_delivery-Progresses d c none env w = gone d c w _ refl
  on_delivery-Progresses d c (some m) env w =
      let (r, u) = handler m env w in
      let p = settle-Progresses d c r env u in
      record {
        more = p.more;
        ready_then = p.ready_then ∙ ap (λ q. q ++ p.more) ((quiet m).at env w).ready_same;
        fewer = p.fewer;
        more_counted = p.more_counted;
      }

  -- One delivery leaves fewer attempts, and only counts that `Consume` writes.
  deliver_fewer :
      (q : List Delivery) (env : Env) (w : World) (n : ℕ)
      → All IsCounted q
      → total_left q ≤ suc n
      → (total_left (deliver handler q env (record w { ready = q })).1.ready ≤ n)
        × All IsCounted (deliver handler q env (record w { ready = q })).1.ready
  unfolding deliver
  deliver_fewer [] env w n h le = (omega arith, tt)
  deliver_fewer (d ∷ rest) env w n h le =
      let p = on_delivery-Progresses d h.0 d.body env (record w { ready = rest }) in
      rw p.ready_then (
        omega (arith, total_left-append rest p.more, p.fewer),
        All-append IsCounted rest p.more h.1 p.more_counted,
      )

  drain :
      (n : ℕ) (env : Env) (w : World)
      → All IsCounted w.ready
      → total_left w.ready ≤ n
      → (total_left (consume n handler env w).1.ready ≤ 0)
        × All IsCounted (consume n handler env w).1.ready
  unfolding consume
  drain zero env w h le = (le, h)
  drain (suc n) env w h le =
      let (fewer, counted) = deliver_fewer w.ready env w n h le in
      drain n env (deliver handler w.ready env w).1 counted fewer

none_left : (q : List Delivery) → All IsCounted q → total_left q ≤ 0 → q ≡ []
none_left [] h le = refl
none_left (d ∷ q) h le = absurd (omega (arith, attempts_pos d h.0))

total_left-le : (q : List Delivery) → All IsCounted q → total_left q ≤ 3 * length q
total_left-le [] h = omega arith
total_left-le (d ∷ q) h = omega (arith, attempts_le d h.0, total_left-le q h.1)

-- Where the messages have no retry count or one that `Consume` wrote, and the handler touches no
-- queue, three deliveries for each message empty the main queue, whatever the handler returns and
-- whichever calls fail.
pub consume_drains :
    (handler : JobMessage → Action (Unit {0}))
    → ((m : JobMessage) → Does KeepsQueues (handler m))
    → (env : Env) (w : World) → All IsCounted w.ready
    → (consume (3 * length w.ready) handler env w).1.ready ≡ []
consume_drains handler quiet env w h =
    let (nothing, counted) =
      drain handler quiet (3 * length w.ready) env w h (total_left-le w.ready h) in
    none_left (consume (3 * length w.ready) handler env w).1.ready counted nothing
