-- ===== src/Pool.antt =====
-- worker/cmd/worker/main.go: the goroutines that call `Consume`, and their stop. Each has one
-- unsettled delivery at most (`Qos(1)`), and what it does between two of its receives is one step.
pub mod Keys
use otel_forge.Prelude.{ℕ, suc, ◌≡◌, Bool, true, false, Option, none, some, List, ◌∷◌, ◌++◌}
use otel_forge.Models.{Bytes}
use otel_forge.Action.{Env, World, JobMessage, Delivery, Action, pure, ignore}
use otel_forge.Queue.{on_delivery}
use otel_forge.Runner.Worker.{work}

-- `waiting` goroutines are in the select of `Consume`; for each of the others there is a delivery
-- that it works on, with an open channel in `unsettled` and with a closed one in `cut_off`, or it
-- has returned. `stopping` says that the context is cancelled.
pub record Pool : Type 0 where
  pub world : World
  pub waiting : ℕ
  pub unsettled : List Delivery
  pub cut_off : List Delivery
  pub returned : ℕ
  pub stopping : Bool

-- A turn of the loop whose channel is closed: the handler runs, and what settles the delivery fails.
unfoldable pub on_cut_off : (JobMessage → Action (Unit {0})) → Option JobMessage → Action (Unit {0})
on_cut_off handler none = pure tt
on_cut_off handler (some msg) = ignore (handler msg)

-- The goroutines of a worker: `concurrency`, which `main` takes from its configuration, is how many
-- it starts. A handler that hangs is one whose `settles` or `runs_out` is not taken, and the broker
-- may close any channel at any time.
pub data Turn (concurrency : ℕ) : Pool → Pool → Type 0 where
  -- The broker gives a delivery to a goroutine that waits; the select may choose it after a stop.
  takes :
      (s : Pool) (n : ℕ) (d : Delivery) (rest : List Delivery)
      → s.waiting ≡ suc n
      → s.world.ready ≡ d ∷ rest
      → Turn concurrency s (record s {
        world = record s.world { ready = rest };
        waiting = n;
        unsettled = d ∷ s.unsettled;
      })
  settles :
      (s : Pool) (before behind : List Delivery) (d : Delivery) (key : Bytes) (env : Env)
      → s.unsettled ≡ before ++ d ∷ behind
      → Turn concurrency s (record s {
        world = (on_delivery (work key) d.body d env s.world).1;
        waiting = suc s.waiting;
        unsettled = before ++ behind;
      })
  -- The channel closes under a handler: the broker puts the delivery back, to the front.
  loses_channel :
      (s : Pool) (before behind : List Delivery) (d : Delivery)
      → s.unsettled ≡ before ++ d ∷ behind
      → Turn concurrency s (record s {
        world = record s.world { ready = d ∷ s.world.ready };
        unsettled = before ++ behind;
        cut_off = d ∷ s.cut_off;
      })
  -- The handler that runs on ends; where its calls fail from some number on, its process has died.
  runs_out :
      (s : Pool) (before behind : List Delivery) (d : Delivery) (key : Bytes) (env : Env)
      → s.cut_off ≡ before ++ d ∷ behind
      → Turn concurrency s (record s {
        world = (on_cut_off (work key) d.body env s.world).1;
        cut_off = before ++ behind;
        returned = suc s.returned;
      })
  -- `delivery channel closed`, or a channel that could not be set up.
  closes :
      (s : Pool) (n : ℕ)
      → s.waiting ≡ suc n
      → Turn concurrency s (record s { waiting = n; returned = suc s.returned })
  -- The signal.
  stops : (s : Pool) → Turn concurrency s (record s { stopping = true })
  -- `case <-ctx.Done()`
  returns :
      (s : Pool) (n : ℕ)
      → s.stopping ≡ true
      → s.waiting ≡ suc n
      → Turn concurrency s (record s { waiting = n; returned = suc s.returned })
  -- A new process, once the old one has none of its goroutines left.
  restarts :
      (s : Pool)
      → s.returned ≡ concurrency
      → Turn concurrency s (record s { waiting = concurrency; returned = 0; stopping = false })
