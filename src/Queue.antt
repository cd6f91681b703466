-- ===== src/Queue.antt =====
-- internal/queue: publishing a job, and the consumer with its retries. The exchange routes the
-- key `job` to `ready` and, as `Declare` sets it up, what is rejected to `dead`. Every delivery is
-- settled before the next (`Qos(1)`), and the loop is cut after a number of deliveries, as its
-- context may be at any.
pub mod RetryCount
pub mod Progress
pub mod Drain
pub mod Fate
pub mod Setup
use otel_forge.Prelude.{ℕ, zero, suc, Option, none, some, List, [], ◌∷◌, ◌++◌, if◌then◌else◌}
use otel_forge.Prelude.Int.{ℤ, pos, suc_ℤ, leb_ℤ, to_int32}
use otel_forge.Action.{
  World, JobMessage, Delivery, HeaderValue, int32, Action, Result, ok, err, pure, try, call, ◌>>=◌,
  ◌>>◌,
}
use RetryCount.{Table, insert, retry_count_header, delivery_retry_count, or_no_headers}

abbrev pub max_delivery_attempts : ℤ
max_delivery_attempts = pos 3

unfoldable pub enqueue : Delivery → Action (Unit {0})
enqueue d env w = (ok tt, record w { ready = w.ready ++ d ∷ [] })

-- A rejected delivery goes to the dead-letter queue.
unfoldable pub nack : Delivery → Action (Unit {0})
nack d env w = (ok tt, record w { dead = w.dead ++ d ∷ [] })

-- An acknowledged delivery is gone: it left `ready` when it was taken.
unfoldable pub ack : Delivery → Action (Unit {0})
ack d = pure tt

-- A channel is opened, and the message is handed to the exchange. Marshalling four strings does
-- not fail.
unfoldable pub publish : JobMessage → Action (Unit {0})
publish msg = do call; call; enqueue (record { body = some msg; headers = none })

-- A republished message that cannot be sent is rejected.
unfoldable pub after_republish : Delivery → Delivery → Result ℕ → Action (Unit {0})
after_republish d d' (ok _) = do enqueue d'; ack d
after_republish d d' (err _) = nack d

-- `headers` is a copy of the delivery's with the count set.
unfoldable pub with_count : Delivery → ℤ → Delivery
with_count d n = record d {
  headers = some (insert retry_count_header (int32 (to_int32 n)) (or_no_headers d.headers));
}

-- What follows the handler.
unfoldable pub settle_delivery : Delivery → Result (Unit {0}) → Action (Unit {0})
settle_delivery d (ok _) = ack d
settle_delivery d (err _) =
    let retry = delivery_retry_count d.headers in
    if leb_ℤ max_delivery_attempts (suc_ℤ retry)
    then nack d
    else (do r ← try call; after_republish d (with_count d (suc_ℤ retry)) r)

-- One turn of the loop, on a delivery that has left `ready`.
unfoldable pub on_delivery :
    (JobMessage → Action (Unit {0})) → Option JobMessage → Delivery → Action (Unit {0})
on_delivery handler none d = nack d
on_delivery handler (some msg) d = do r ← try (handler msg); settle_delivery d r

unfoldable pub deliver : (JobMessage → Action (Unit {0})) → List Delivery → Action (Unit {0})
deliver handler [] env w = (ok tt, w)
deliver handler (d ∷ rest) env w = on_delivery handler d.body d env (record w { ready = rest })

-- The loop, for that many deliveries; it waits where the queue is empty.
unfoldable pub consume : ℕ → (JobMessage → Action (Unit {0})) → Action (Unit {0})
consume zero handler env w = (ok tt, w)
consume (suc n) handler env w = consume n handler env (deliver handler w.ready env w).1
