-- ===== src/Action/Rules.antt =====
-- Rules for actions, one for each way to build one: what it does to the world, what holds when it
-- returns, and when it does.
mod Changes
mod Endings
mod Returns
mod Inversion
pub use Changes.{
  Does, Does-after, Does-bind, Does-call, Does-get_db, Does-get_env, Does-if, Does-ignore,
  Does-lift, Does-pure, Does-step, Does-raise, Does-require, Does-tick, Does-try, Does-weaken,
  Frame, does_rules,
}
pub use Endings.{Ensures, Ensures-bind, Ensures-if, Ensures-raise, ensures_rules}
pub use Returns.{
  NoFault, Succeeds, Succeeds-bind, Succeeds-call, Succeeds-get_db, Succeeds-get_env, Succeeds-if,
  Succeeds-ignore, Succeeds-modify_db, Succeeds-pure, Succeeds-tick, Succeeds-try, Succeeds-require,
  Succeeds-after, Yields, Yields-bind, succeeds_rules,
}
pub use Inversion.{>>=-eq-err, >>=-eq-ok, Result-cases, try_ok, bind_ok, call_bind, counted_up}
