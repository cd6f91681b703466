-- ===== src/Action/Rules/Returns.antt =====
-- When an action returns without an error, by the way it is built.
use otel_forge.Prelude.{ℕ, ◌≡◌, refl, Bool, true, false, none, if◌then◌else◌}
use otel_forge.Action.Defs.{
  Db, World, Env, Action, Error, ok, pure, ◌>>=◌, ignore, try, get_env, get_db, modify_db, require,
  call, tick,
}

-- No call fails.
abbrev pub NoFault : Env → Type 0
NoFault env = (n : ℕ) → env.fault n ≡ none

-- `m` returns without an error in this environment.
pub record Succeeds (env : Env) {A : Type 0} (m : Action A) : Type 0 where
  pub at : (w : World) → (a : A) × ((m env w).0 ≡ ok a)

module _ {env : Env} where
  pub Succeeds-pure : {A : Type 0} (a : A) → Succeeds env (pure a)
  unfolding pure
  Succeeds-pure a = record { at = λ w. (a, refl) }

  pub Succeeds-get_env : Succeeds env get_env
  unfolding get_env
  Succeeds-get_env = record { at = λ w. (env, refl) }

  pub Succeeds-get_db : Succeeds env get_db
  unfolding get_db
  Succeeds-get_db = record { at = λ w. (w.db, refl) }

  pub Succeeds-modify_db : (f : Db → Db) → Succeeds env (modify_db f)
  unfolding modify_db
  Succeeds-modify_db f = record { at = λ w. (tt, refl) }

  pub Succeeds-tick : Succeeds env tick
  unfolding tick
  Succeeds-tick = record { at = λ w. (w.calls, refl) }

  pub Succeeds-call : NoFault env → Succeeds env call
  unfolding call
  Succeeds-call nf = record { at = λ w. (w.calls, rw (nf w.calls)) }

  pub Succeeds-ignore : {A : Type 0} (m : Action A) → Succeeds env (ignore m)
  unfolding ignore
  Succeeds-ignore m = record { at = λ w. (tt, refl) }

  pub Succeeds-try : {A : Type 0} (m : Action A) → Succeeds env (try m)
  unfolding try
  Succeeds-try m = record { at = λ w. ((m env w).0, refl) }

  pub Succeeds-if :
      {A : Type 0} (b : Bool) (m n : Action A)
      → Succeeds env m
      → Succeeds env n
      → Succeeds env (if b then m else n)
  Succeeds-if true m n sm sn = sm
  Succeeds-if false m n sm sn = sn

  pub Succeeds-bind :
      {A B : Type 0} (m : Action A) (f : A → Action B)
      → Succeeds env m
      → ((a : A) → Succeeds env (f a))
      → Succeeds env (m >>= f)
  unfolding ◌>>=◌
  Succeeds-bind m f sm sf = record {
    at = λ w. let (a, e) = sm.at w in let (b, e') = (sf a).at (m env w).1 in (b, rw e e');
  }

  pub Succeeds-require : (b : Bool) (e : Error) → b ≡ true → Succeeds env (require b e)
  unfolding require
  Succeeds-require true e h = record { at = λ w. (tt, refl) }
  Succeeds-require false e h = absurd (cc h)

-- `m` returns in this environment, with a value that has the property.
pub record Yields (env : Env) {A : Type 0} (P : A → Type 0) (m : Action A) : Type 0 where
  pub at : (w : World) → (a : A) × ((m env w).0 ≡ ok a) × P a

module _ {env : Env} {A B : Type 0} {P : A → Type 0} (m : Action A) where
  pub Succeeds-after :
      (f : A → Action B)
      → Yields env P m
      → ((a : A) → P a → Succeeds env (f a))
      → Succeeds env (m >>= f)
  unfolding ◌>>=◌
  Succeeds-after f ym sf = record {
    at = λ w. let (a, e, p) = ym.at w in let (b, e') = (sf a p).at (m env w).1 in (b, rw e e');
  }

  pub Yields-bind :
      (Q : B → Type 0) (f : A → Action B)
      → Yields env P m
      → ((a : A) → P a → Yields env Q (f a))
      → Yields env Q (m >>= f)
  unfolding ◌>>=◌
  Yields-bind Q f ym yf = record {
    at =
        λ w. let (a, e, p) = ym.at w in let (b, e', q) = (yf a p).at (m env w).1 in (b, rw e e', q);
  }

pub ruleset succeeds_rules = (
  Succeeds-pure, Succeeds-get_env, Succeeds-get_db, Succeeds-modify_db, Succeeds-tick,
  Succeeds-call, Succeeds-ignore, Succeeds-try, Succeeds-if, Succeeds-bind, Succeeds-require,
)
