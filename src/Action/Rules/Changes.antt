-- ===== src/Action/Rules/Changes.antt =====
-- What an action does to the world, by the way it is built.
use otel_forge.Prelude.{◌≡◌, refl, ℕ, Bool, true, false, if◌then◌else◌}
use otel_forge.Action.Defs.{
  World, Env, Action, Result, ok, err, Error, pure, raise, lift, ◌>>=◌, continue, ignore, try,
  get_env, get_db, require, call, tick,
}

-- A relation between the world before and after that sees no counter of calls.
pub record Frame (R : World → World → Type 0) : Type 0 where
  pub same : (w : World) → R w w
  pub then_ : (u v w : World) → R u v → R v w → R u w
  pub counted : (w : World) (n : ℕ) → R w (record w { calls = n })

-- `m` relates the world that it leaves to the world that it met, whether it fails or not.
pub record Does (R : World → World → Type 0) {A : Type 0} (m : Action A) : Type 0 where
  pub at : (env : Env) (w : World) → R w (m env w).1

module _ {R : World → World → Type 0} where
  pub Does-pure : {A : Type 0} (a : A) → Frame R → Does R (pure a)
  unfolding pure
  Does-pure a f = record { at = λ env w. f.same w }

  pub Does-raise : {A : Type 0} (e : Error) → Frame R → Does R (raise {A = A} e)
  unfolding raise
  Does-raise e f = record { at = λ env w. f.same w }

  pub Does-lift : {A : Type 0} (r : Result A) → Frame R → Does R (lift r)
  unfolding lift
  Does-lift r f = record { at = λ env w. f.same w }

  pub Does-get_env : Frame R → Does R get_env
  unfolding get_env
  Does-get_env f = record { at = λ env w. f.same w }

  pub Does-get_db : Frame R → Does R get_db
  unfolding get_db
  Does-get_db f = record { at = λ env w. f.same w }

  pub Does-require : (b : Bool) (e : Error) → Frame R → Does R (require b e)
  unfolding require
  Does-require true e f = record { at = λ env w. f.same w }
  Does-require false e f = record { at = λ env w. f.same w }

  pub Does-call : Frame R → Does R call
  unfolding call
  Does-call f = record { at = λ env w. f.counted w _ }

  pub Does-tick : Frame R → Does R tick
  unfolding tick
  Does-tick f = record { at = λ env w. f.counted w _ }

  pub Does-ignore : {A : Type 0} (m : Action A) → Does R m → Does R (ignore m)
  unfolding ignore
  Does-ignore m d = record { at = λ env w. d.at env w }

  pub Does-try : {A : Type 0} (m : Action A) → Does R m → Does R (try m)
  unfolding try
  Does-try m d = record { at = λ env w. d.at env w }

  pub Does-if :
      {A : Type 0} (b : Bool) (m n : Action A) → Does R m → Does R n → Does R (if b then m else n)
  Does-if true m n dm dn = dm
  Does-if false m n dm dn = dn

  Does-continue :
      {A B : Type 0} (r : Result A) (f : A → Action B) (u : World)
      → Frame R
      → ((a : A) → Does R (f a))
      → (env : Env) → R u (continue r f env u).1
  Does-continue (ok a) f u fr d env = (d a).at env u
  Does-continue (err e) f u fr d env = fr.same u

  pub Does-bind :
      {A B : Type 0} (m : Action A) (f : A → Action B)
      → Frame R
      → Does R m
      → ((a : A) → Does R (f a))
      → Does R (m >>= f)
  unfolding ◌>>=◌
  Does-bind m f fr dm df = record {
    at = λ env w.
        let (r, w') = m env w in
        fr.then_ w w' (continue r f env w').1 (dm.at env w) (Does-continue r f w' fr df env);
  }

  -- A first step that is known to be related where it is taken.
  pub Does-after :
      {A B : Type 0} (m : Action A) (f : A → Action B) (env : Env) (w : World)
      → Frame R
      → R w (m env w).1
      → ((a : A) → Does R (f a))
      → R w ((m >>= f) env w).1
  unfolding ◌>>=◌
  Does-after m f env w fr first_step df =
      let (r, u) = m env w in
      fr.then_ w u (continue r f env u).1 first_step (Does-continue r f u fr df env)

  -- A block, by what its first step does and what follows for a result that the step has given.
  pub Does-step :
      {A B : Type 0} (m : Action A) (f : A → Action B) (env : Env) (w : World)
      → Frame R
      → R w (m env w).1
      → ((a : A) → (m env w).0 ≡ ok a → R (m env w).1 (f a env (m env w).1).1)
      → R w ((m >>= f) env w).1
  unfolding ◌>>=◌
  Does-step {A} {B} m f env w fr first_step next =
      fr.then_ w (m env w).1 _ first_step (go (m env w).0 refl)
    where
      go : (r : Result A) → (m env w).0 ≡ r → R (m env w).1 (continue r f env (m env w).1).1
      go (ok a) e = next a e
      go (err x) e = fr.same (m env w).1

-- A relation may be given up for a weaker one.
pub Does-weaken :
    {R S : World → World → Type 0} {A : Type 0} (m : Action A)
    → ((u v : World) → R u v → S u v)
    → Does R m
    → Does S m
Does-weaken m h d = record { at = λ env w. h w (m env w).1 (d.at env w) }

pub ruleset does_rules = (
  Does-pure, Does-raise, Does-lift, Does-get_env, Does-get_db, Does-require, Does-call, Does-tick,
  Does-ignore, Does-try, Does-if, Does-bind,
)
