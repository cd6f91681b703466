-- ===== src/Prelude/Counting.antt =====
-- What the counts of rows say about the rows.
use Prim.Native.Nat.{◌+◌, ◌≤◌, ◌<◌}
use mathlib.Core.Path.{◌≡◌, refl, sym, ap, ◌∙◌, subst}
use mathlib.Core.Bool.{Bool, true, false}
use mathlib.Core.List.{List, [], ◌∷◌, ◌++◌, map}
use mathlib.Core.Option
use mathlib.Core.Option.{none, some}
use mathlib.Core.Logic.{inl, inr}
use native.Mathlib.Omega.{arith}
use otel_forge.Prelude.Tests.{if◌then◌else◌, Bool-cases, Option-cases}
use otel_forge.Prelude.Lists.{All, All-map}
use otel_forge.Prelude.Rows.{count, exists, first, update, select}

module _ {ℓ} {A : Type ℓ} where
  pub count-le :
      (p q : A → Bool) (xs : List A) → ((a : A) → p a ≡ true → q a ≡ true) → count p xs ≤ count q xs
  count-le p q [] h = omega arith
  count-le p q (x ∷ xs) h = ground (arith, h x, count-le p q xs h)

  -- Every row that meets `q` meets `p`, where the counts are equal.
  pub All-of_counts :
      (p q : A → Bool) (xs : List A)
      → ((a : A) → p a ≡ true → q a ≡ true)
      → count p xs ≡ count q xs
      → All (λ a. q a ≡ true → p a ≡ true) xs
  All-of_counts p q [] h e = tt
  All-of_counts p q (x ∷ xs) h e =
      let le = count-le p q xs h in
      (ground (arith, h x), All-of_counts p q xs h (ground (arith, h x)))

  pub counts-of_All :
      (p q : A → Bool) (xs : List A)
      → ((a : A) → p a ≡ true → q a ≡ true)
      → All (λ a. q a ≡ true → p a ≡ true) xs
      → count p xs ≡ count q xs
  counts-of_All p q [] h k = refl
  counts-of_All p q (x ∷ xs) h k = ground (arith, h x, k.0, counts-of_All p q xs h k.1)

  pub exists-count : (p : A → Bool) (xs : List A) → 0 < count p xs → exists p xs ≡ true
  exists-count p [] h = absurd (omega arith)
  exists-count p (x ∷ xs) h = ground (arith, exists-count p xs)

  pub count-exists : (p : A → Bool) (xs : List A) → exists p xs ≡ true → 0 < count p xs
  count-exists p [] h = cc
  count-exists p (x ∷ xs) h = ground (arith, count-exists p xs)

  -- A test that splits in three.
  pub count-split :
      (p q r t : A → Bool) (xs : List A)
      → ((a : A)
          → (if t a then 1 else 0)
            ≡ (if p a then 1 else 0) + (if q a then 1 else 0) + (if r a then 1 else 0))
      → count t xs ≡ count p xs + count q xs + count r xs
  count-split p q r t [] h = omega arith
  count-split p q r t (x ∷ xs) h = omega (arith, h x, count-split p q r t xs h)

  -- The row that a query returns meets its condition.
  pub first-holds : (p : A → Bool) (xs : List A) {a : A} → first p xs ≡ some a → p a ≡ true
  first-holds p [] h = cc
  first-holds p (x ∷ xs) {a} h = ground (arith, first-holds p xs {a = a})

  pub exists-first : (p : A → Bool) (xs : List A) {a : A} → first p xs ≡ some a → exists p xs ≡ true
  exists-first p [] h = cc
  exists-first p (x ∷ xs) {a} h = ground (arith, exists-first p xs {a = a})

  -- Every row after an update: the rows that were not met keep what they had.
  pub All-update {κ} :
      (P : A → Type κ) (p : A → Bool) (f : A → A) (xs : List A)
      → ((a : A) → p a ≡ true → P (f a))
      → ((a : A) → p a ≡ false → P a)
      → All P (update p f xs)
  All-update P p f [] h k = tt
  All-update P p f (x ∷ xs) h k = elim (Bool-cases (p x)) [
    | inl e ↦ rw e (h x e, All-update P p f xs h k)
    | inr e ↦ rw e (k x e, All-update P p f xs h k)
  ]

  pub All-first {κ} :
      (P : A → Type κ) (p : A → Bool) (xs : List A) {x : A}
      → All (λ a. p a ≡ true → P a) xs
      → first p xs ≡ some x
      → P x
  All-first P p [] h e = cc
  All-first P p (y ∷ xs) {x} h e = elim (Bool-cases (p y)) [
    | inl t ↦ (let same : y ≡ x = ground arith in subst P same (h.0 t))
    | inr f ↦ All-first P p xs h.1 (ground arith)
  ]

module _ {ℓ κ} {A : Type ℓ} where
  pub All-select : (P : A → Type κ) (q : A → Bool) (xs : List A) → All P xs → All P (select q xs)
  All-select P q [] h = tt
  All-select P q (x ∷ xs) h = elim (Bool-cases (q x)) [
    | inl t ↦ rw t (h.0, All-select P q xs h.1)
    | inr f ↦ rw f (All-select P q xs h.1)
  ]

  pub select-All :
      (P : A → Type κ) (q : A → Bool) (xs : List A)
      → All P (select q xs)
      → All (λ a. q a ≡ true → P a) xs
  select-All P q [] h = tt
  select-All P q (x ∷ xs) h = elim (Bool-cases (q x)) [
    | inl t ↦
        (let found : All P (x ∷ select q xs) =
            subst (λ b. All P (if b then x ∷ select q xs else select q xs)) t h in
          (λ _. found.0, select-All P q xs found.1))
    | inr f ↦
        (let rest : All P (select q xs) =
            subst (λ b. All P (if b then x ∷ select q xs else select q xs)) f h in
          (λ t. cc, select-All P q xs rest))
  ]

  -- What holds of every pair of rows holds of each row with itself.
  pub All-diagonal :
      (R : A → A → Type κ) (xs : List A) → All (λ x. All (R x) xs) xs → All (λ x. R x x) xs
  All-diagonal R [] h = tt
  All-diagonal R (x ∷ xs) h = (h.0.0, All-diagonal R xs (All-map xs (λ a k. k.1) h.1))

-- A query on a column finds rows that agree on it, where the columns of the tables agree.
pub first-map {ℓ κ} :
    {A : Type ℓ} {B : Type κ} (g : A → B) (p : B → Bool) (xs : List A)
    → first p (map g xs) ≡ Option.map g (first (λ a. p (g a)) xs)
first-map g p [] = refl
first-map g p (x ∷ xs) = elim (Bool-cases (p (g x))) [
  | inl t ↦ rw t
  | inr f ↦ rw f (first-map g p xs)
]

pub first-same_columns {ℓ κ} :
    {A : Type ℓ} {B : Type κ} (g : A → B) (p : B → Bool) (xs ys : List A) {y : A}
    → map g xs ≡ map g ys
    → first (λ a. p (g a)) ys ≡ some y
    → (x : A) × (first (λ a. p (g a)) xs ≡ some x) × (g x ≡ g y)
first-same_columns {A} g p xs ys {y} same e = elim (Option-cases (first (λ a. p (g a)) xs)) [
  | inl nothing ↦ cc (found, ap (Option.map g) nothing)
  | inr (x, here) ↦ (x, here, cc (found, ap (Option.map g) here))
]
  where
    found : Option.map g (first (λ a. p (g a)) xs) ≡ some (g y)
    found = sym (first-map g p xs) ∙ ap (first p) same ∙ first-map g p ys ∙ ap (Option.map g) e

pub select-congr {ℓ} :
    {A : Type ℓ} (p q : A → Bool) (xs : List A) → ((a : A) → p a ≡ q a) → select p xs ≡ select q xs
select-congr p q [] h = refl
select-congr p q (x ∷ xs) h = rw (h x, select-congr p q xs h)

module _ {ℓ} {A : Type ℓ} where
  pub update-append :
      (p : A → Bool) (f : A → A) (xs ys : List A)
      → update p f (xs ++ ys) ≡ update p f xs ++ update p f ys
  update-append p f [] ys = refl
  update-append p f (x ∷ xs) ys = rw (update-append p f xs ys)

  -- An update that meets no row changes none.
  pub update-none :
      (p : A → Bool) (f : A → A) (xs : List A) → exists p xs ≡ false → update p f xs ≡ xs
  update-none p f [] h = refl
  update-none p f (x ∷ xs) h = ground (arith, update-none p f xs)

  -- An update of rows that the query leaves out, before and after, leaves its answer alone.
  pub select-update :
      (q p : A → Bool) (f : A → A) (xs : List A)
      → ((a : A) → p a ≡ true → (q a ≡ false) × (q (f a) ≡ false))
      → select q (update p f xs) ≡ select q xs
  select-update q p f [] h = refl
  select-update q p f (x ∷ xs) h = ground (arith, h x, select-update q p f xs h)

  -- A count sees only the rows of a query that leaves none of the counted ones out.
  pub count-select :
      (p q : A → Bool) (xs : List A)
      → All (λ a. p a ≡ true → q a ≡ true) xs
      → count p (select q xs) ≡ count p xs
  count-select p q [] h = refl
  count-select p q (x ∷ xs) h = ground (arith, h.0, count-select p q xs h.1)

  -- A row that is found stays found when rows are added behind.
  pub first-append :
      (p : A → Bool) (xs ys : List A) {x : A} → first p xs ≡ some x → first p (xs ++ ys) ≡ some x
  first-append p [] ys h = cc
  first-append p (x ∷ xs) ys {x = y} h = ground (arith, first-append p xs ys {x = y})

pub map-append {ℓ κ} :
    {A : Type ℓ} {B : Type κ} (f : A → B) (xs ys : List A) → map f (xs ++ ys) ≡ map f xs ++ map f ys
map-append f [] ys = refl
map-append f (x ∷ xs) ys = ap (λ t. f x ∷ t) (map-append f xs ys)
