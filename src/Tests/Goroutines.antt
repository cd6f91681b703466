-- ===== src/Tests/Goroutines.antt =====
-- The theorems on the goroutines of a worker at concrete inputs.
use otel_forge.Prelude.{◌≤◌, ◌⊎◌, refl, [], ◌∷◌}
use otel_forge.Queue.{on_delivery}
use otel_forge.Runner.Worker.{work}
use otel_forge.Pool.{Pool, takes, settles, loses_channel}
use otel_forge.System.{turn, Reach, at_start, then_step}
use otel_forge.System.Custody.{messages_for, JobDone, messages_kept}
use otel_forge.Tests.Data.{calm, key, world, delivery_20, at_rest}

-- A goroutine takes the delivery and loses its channel; another takes it again and settles it.
abbrev taken : Pool
taken = record (at_rest world) {
  world = record world { ready = [] };
  waiting = 1;
  unsettled = delivery_20 ∷ [];
}

abbrev lost : Pool
lost = record taken { world = world; unsettled = []; cut_off = delivery_20 ∷ [] }

abbrev taken_again : Pool
taken_again = record lost {
  world = record world { ready = [] };
  waiting = 0;
  unsettled = delivery_20 ∷ [];
}

abbrev settled : Pool
settled = record taken_again {
  world = (on_delivery (work key) delivery_20.body delivery_20 calm taken_again.world).1;
  waiting = 1;
  unsettled = [];
}

path_taken : Reach 2 (at_rest world) taken
path_taken = then_step at_start (turn (takes (at_rest world) 1 delivery_20 [] refl refl))

path : Reach 2 (at_rest world) settled
path =
    then_step
      (then_step (then_step path_taken (turn (loses_channel taken [] [] delivery_20 refl)))
        (turn (takes lost 0 delivery_20 [] refl refl)))
      (turn (settles taken_again [] [] delivery_20 key calm refl))

messages_kept_example :
    (messages_for 20 (at_rest world) ≤ messages_for 20 settled)
    ⊎ ((t : Pool) × Reach 2 (at_rest world) t × Reach 2 t settled × JobDone 20 t.world)
messages_kept_example = messages_kept 2 20 (at_rest world) settled path
