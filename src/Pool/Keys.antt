-- ===== src/Pool/Keys.antt =====
-- The goroutines of a worker change no key of a row.
use otel_forge.Prelude.{ℕ, Option, none, some}
use otel_forge.Models.{Bytes}
use otel_forge.Action.{JobMessage}
use otel_forge.Action.Rules.{Does, does_rules}
use otel_forge.Runner.Frame.{SameKeys, same_keys}
use otel_forge.Runner.Worker.{work, DbKeys, DbKeys-Frame, work-Does, on_delivery-Does}
use otel_forge.Pool.{
  Pool, on_cut_off, Turn, takes, settles, loses_channel, runs_out, closes, stops, returns, restarts,
}

on_cut_off-Does :
    (key : Bytes) (body : Option JobMessage) → Does DbKeys (on_cut_off (work key) body)
unfolding on_cut_off
on_cut_off-Does key none = search (does_rules, DbKeys-Frame)
on_cut_off-Does key (some m) = search (does_rules, work-Does)

pub Turn-SameKeys : (c : ℕ) (s s' : Pool) → Turn c s s' → SameKeys s.world.db s'.world.db
Turn-SameKeys c s _ (takes _ n d rest some_wait first) = same_keys s.world.db
Turn-SameKeys c s _ (settles _ before behind d key env at) =
    ((on_delivery-Does key d.body d).at env s.world).keys
Turn-SameKeys c s _ (loses_channel _ before behind d at) = same_keys s.world.db
Turn-SameKeys c s _ (runs_out _ before behind d key env at) =
    ((on_cut_off-Does key d.body).at env s.world).keys
Turn-SameKeys c s _ (closes _ n some_wait) = same_keys s.world.db
Turn-SameKeys c s _ (stops _) = same_keys s.world.db
Turn-SameKeys c s _ (returns _ n stopping some_wait) = same_keys s.world.db
Turn-SameKeys c s _ (restarts _ all) = same_keys s.world.db
