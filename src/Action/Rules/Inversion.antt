-- ===== src/Action/Rules/Inversion.antt =====
-- How an action has come to its result.
use otel_forge.Prelude.{◌+◌, ◌≡◌, refl, ◌⊎◌, inl, inr, String, none, some, Option-cases}
use otel_forge.Action.Defs.{
  try, World, Env, Action, Result, ok, err, Error, ◌>>=◌, continue, call, driver, ◌>>◌,
}

pub Result-cases :
    {A : Type 0} (r : Result A) → ((a : A) × (r ≡ ok a)) ⊎ ((e : Error) × (r ≡ err e))
Result-cases (ok a) = inl (a, refl)
Result-cases (err e) = inr (e, refl)

-- Inversion of a block that has returned.
pub >>=-eq-ok :
    {A B : Type 0} (m : Action A) (f : A → Action B) (env : Env) (w : World) {b : B}
    → ((m >>= f) env w).0 ≡ ok b
    → (a : A) × ((m env w).0 ≡ ok a)
      × ((f a env (m env w).1).0 ≡ ok b)
      × ((m >>= f) env w ≡ f a env (m env w).1)
unfolding ◌>>=◌
>>=-eq-ok {A} {B} m f env w {b} h = go (m env w).0 (m env w).1 refl h
  where
    go :
        (r : Result A) (u : World)
        → (m env w).0 ≡ r
        → (continue r f env u).0 ≡ ok b
        → (a : A) × (r ≡ ok a) × ((f a env u).0 ≡ ok b) × (continue r f env u ≡ f a env u)
    go (ok a) u e h = (a, refl, h, refl)
    go (err x) u e h = cc

pub >>=-eq-err :
    {A B : Type 0} (m : Action A) (f : A → Action B) (env : Env) (w : World) {e : Error}
    → ((m >>= f) env w).0 ≡ err e
    → (((m env w).0 ≡ err e) × (((m >>= f) env w).1 ≡ (m env w).1))
      ⊎ ((a : A) × ((m env w).0 ≡ ok a)
          × ((f a env (m env w).1).0 ≡ err e)
          × (((m >>= f) env w).1 ≡ (f a env (m env w).1).1))
unfolding ◌>>=◌
>>=-eq-err {A} {B} m f env w {e} h = go (m env w).0 (m env w).1 h
  where
    go :
        (r : Result A) (u : World)
        → (continue r f env u).0 ≡ err e
        → ((r ≡ err e) × ((continue r f env u).1 ≡ u))
          ⊎ ((a : A) × (r ≡ ok a)
              × ((f a env u).0 ≡ err e)
              × ((continue r f env u).1 ≡ (f a env u).1))
    go (ok a) u h = inr (a, refl, h, refl)
    go (err x) u h = inl (cc, refl)

-- A block goes on from a step whose outcome is known.
pub bind_ok :
    {A B : Type 0} (m : Action A) (f : A → Action B) (env : Env) (w : World) {a : A} {u : World}
    → m env w ≡ (ok a, u)
    → (m >>= f) env w ≡ f a env u
unfolding ◌>>=◌
bind_ok m f env w e = rw e

abbrev pub counted_up : World → World
counted_up w = record w { calls = w.calls + 1 }

-- What a block does whose first statement may fail.
pub call_bind :
    {A : Type 0} (m : Action A) (env : Env) (w : World)
    → ((env.fault w.calls ≡ none) × ((call >> m) env w ≡ m env (counted_up w)))
      ⊎ ((s : String) × (env.fault w.calls ≡ some s)
          × ((call >> m) env w ≡ (err (driver s), counted_up w)))
unfolding ◌>>=◌
call_bind m env w = elim (Option-cases (env.fault w.calls)) [
  | inl fine ↦ inl (fine, rw fine)
  | inr (s, failed) ↦ inr (s, failed, rw failed)
]

pub try_ok :
    {A : Type 0} (m : Action A) (env : Env) (w : World) {r : Result A}
    → (try m env w).0 ≡ ok r
    → (m env w).0 ≡ r
unfolding try
try_ok m env w h = cc
