-- ===== src/Queue/Progress.antt =====
-- The consumer empties the queue: each delivery is acknowledged, rejected, or put back with a
-- higher count, and no count passes the limit.
use mathlib.Core.List.{append-nil}
use otel_forge.Prelude.{
  ℕ, String, ◌+◌, ◌-◌, ◌≤◌, ◌<◌, ◌≡◌, ◌∙◌, refl, sym, ap, inl, inr, some, List, [], ◌∷◌, ◌++◌, All,
  Bool-cases, Option-cases, arith,
}
use otel_forge.Prelude.Int.{ℤ, pos, negsuc, suc_ℤ, leb_ℤ, to_int32}
use otel_forge.Action.{Env, World, Delivery, HeaderValue, int32, Result, ok, err, ◌>>=◌}
use otel_forge.Queue.{
  enqueue, nack, ack, after_republish, with_count, settle_delivery, max_delivery_attempts,
}
use otel_forge.Queue.RetryCount.{
  insert, lookup-insert, retry_count_header, delivery_retry_count, or_no_headers, count_of,
}

-- The handler touches neither queue.
pub record KeepsQueues (w w' : World) : Type 0 where
  pub ready_same : w'.ready ≡ w.ready
  pub dead_same : w'.dead ≡ w.dead

-- A count that `Consume` itself writes, or no count.
pub record IsCounted (d : Delivery) : Type 0 where
  pub retries : ℕ
  pub counted : delivery_retry_count d.headers ≡ pos retries
  pub small : retries ≤ 2

-- How many deliveries a message may still take.
abbrev left_of : ℤ → ℕ
left_of (pos n) = 3 - n
left_of (negsuc n) = 3

abbrev pub attempts_left : Delivery → ℕ
attempts_left d = left_of (delivery_retry_count d.headers)

abbrev pub total_left : List Delivery → ℕ
total_left [] = 0
total_left (d ∷ ds) = attempts_left d + total_left ds

pub total_left-append :
    (xs ys : List Delivery) → total_left (xs ++ ys) ≡ total_left xs + total_left ys
total_left-append [] ys = omega arith
total_left-append (x ∷ xs) ys = omega (arith, total_left-append xs ys)

count-insert :
    (t : List (String × HeaderValue)) (n : ℤ)
    → delivery_retry_count (some (insert retry_count_header (int32 n) t)) ≡ n
unfolding delivery_retry_count
count-insert t n = ap count_of (lookup-insert retry_count_header retry_count_header (int32 n) t)

to_int32_small : (n : ℕ) → n ≤ 3 → to_int32 (pos n) ≡ pos n
unfolding to_int32
to_int32_small n h = ground arith

-- The header that is written is the header that is read.
pub with_count-count :
    (d : Delivery) (n : ℕ) → n ≤ 3 → delivery_retry_count (with_count d (pos n)).headers ≡ pos n
unfolding with_count
with_count-count d n h =
    count-insert (or_no_headers d.headers) (to_int32 (pos n)) ∙ to_int32_small n h

-- What is left of a delivery is put at the end of the queue, with fewer attempts left.
pub record Progresses (d : Delivery) (w w' : World) : Type 0 where
  pub more : List Delivery
  pub ready_then : w'.ready ≡ w.ready ++ more
  pub fewer : total_left more < attempts_left d
  pub more_counted : All IsCounted more

module _ (d : Delivery) (c : IsCounted d) where
  pub gone : (w w' : World) → w'.ready ≡ w.ready → Progresses d w w'
  gone w w' e = record {
    more = [];
    ready_then = e ∙ sym (append-nil w.ready);
    fewer = rw c.counted (omega (arith, c.small));
    more_counted = tt;
  }

  again :
      (w w' : World)
      → c.retries < 2
      → w'.ready ≡ w.ready ++ with_count d (pos (c.retries + 1)) ∷ []
      → Progresses d w w'
  again w w' h e =
      let recount = with_count-count d (c.retries + 1) (omega arith) in
      record {
        more = with_count d (pos (c.retries + 1)) ∷ [];
        ready_then = e;
        fewer = rw (recount, c.counted) (omega arith);
        more_counted =
            (record { retries = c.retries + 1; counted = recount; small = omega arith }, tt);
      }

  suc_small : suc_ℤ (pos c.retries) ≡ pos (c.retries + 1)
  suc_small = let small = c.small in ground arith

  pub settle-Progresses :
      (r : Result (Unit {0})) (env : Env) (w : World) → Progresses d w (settle_delivery d r env w).1
  unfolding settle_delivery ack nack after_republish enqueue ◌>>=◌
  settle-Progresses (ok _) env w = gone w _ refl
  settle-Progresses (err x) env w =
      elim (Bool-cases (leb_ℤ max_delivery_attempts (pos (c.retries + 1)))) [
        | inl last ↦ rw (c.counted, suc_small, last) (gone w _ refl)
        | inr not_last ↦ elim (Option-cases (env.fault w.calls)) [
          | inl fine ↦ rw (c.counted, suc_small, not_last, fine) (again w _ (ground arith) refl)
          | inr (s, failed) ↦ rw (c.counted, suc_small, not_last, failed) (gone w _ refl)
        ]
      ]
