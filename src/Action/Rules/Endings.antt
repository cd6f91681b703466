-- ===== src/Action/Rules/Endings.antt =====
-- What holds of the world when an action returns, by the way it is built.
use otel_forge.Prelude.{◌≡◌, refl, Bool, true, false, if◌then◌else◌}
use otel_forge.Action.Defs.{World, Env, Action, Result, ok, err, Error, raise, ◌>>=◌, continue}

-- When `m` returns without an error, `Q` holds of the world.
pub record Ensures (Q : World → Type 0) {A : Type 0} (m : Action A) : Type 0 where
  pub at : (env : Env) (w : World) {a : A} → (m env w).0 ≡ ok a → Q (m env w).1

module _ {Q : World → Type 0} where
  pub Ensures-raise : {A : Type 0} (e : Error) → Ensures Q (raise {A = A} e)
  unfolding raise
  Ensures-raise e = record { at = λ env w h. cc }

  pub Ensures-if :
      {A : Type 0} (b : Bool) (m n : Action A)
      → (b ≡ true → Ensures Q m)
      → (b ≡ false → Ensures Q n)
      → Ensures Q (if b then m else n)
  Ensures-if true m n em en = em refl
  Ensures-if false m n em en = en refl

  Ensures-continue :
      {A B : Type 0} (r : Result A) (f : A → Action B) (u : World) (env : Env) {b : B}
      → ((a : A) → Ensures Q (f a))
      → (continue r f env u).0 ≡ ok b
      → Q (continue r f env u).1
  Ensures-continue (ok a) f u env ef h = (ef a).at env u h
  Ensures-continue (err e) f u env ef h = cc

  pub Ensures-bind :
      {A B : Type 0} (m : Action A) (f : A → Action B)
      → ((a : A) → Ensures Q (f a))
      → Ensures Q (m >>= f)
  unfolding ◌>>=◌
  Ensures-bind m f ef = record {
    at = λ env w h. let (r, w') = m env w in Ensures-continue r f w' env ef h;
  }

pub ruleset ensures_rules = (Ensures-raise, Ensures-if, Ensures-bind)
