-- ===== src/System/Owners.antt =====
-- The owners of the rows, by the keys of the tables.
use otel_forge.Prelude.{
  ℕ, ◌≡◌, refl, inl, inr, Bool, false, Option, none, some, List, [], ◌∷◌, ◌++◌, map, All, ◌==◌,
  first, exists, delete, Bool-cases, if◌then◌else◌, arith,
}
use otel_forge.Models.{Event, Instance}
use otel_forge.Action.{World}
use otel_forge.Store.Events.{event_has_id}
use otel_forge.Store.Instances.{has_id, owned_by}
use otel_forge.Runner.Frame.{job_key, event_key, instance_key}

-- The owner of the first row with this identifier.
abbrev pub owner_of : ℕ → List (ℕ × ℕ) → Option ℕ
owner_of id [] = none
owner_of id ((i, owner) ∷ rows) = if i == id then some owner else owner_of id rows

-- A job runs on an instance of the user who owns its event.
pub record OneOwner (events instances : List (ℕ × ℕ)) (job : ℕ × ℕ × ℕ) : Type 0 where
  pub owner : ℕ
  pub of_event : owner_of job.1 events ≡ some owner
  pub of_instance : owner_of job.2 instances ≡ some owner

-- This holds of every job of the table.
abbrev pub AllOneOwner : World → Type 0
AllOneOwner w =
    All (OneOwner (map event_key w.events) (map instance_key w.instances)) (map job_key w.jobs)

pub owner_of-append :
    (id : ℕ) (xs ys : List (ℕ × ℕ)) {o : ℕ}
    → owner_of id xs ≡ some o
    → owner_of id (xs ++ ys) ≡ some o
owner_of-append id [] ys h = cc
owner_of-append id ((i, owner) ∷ xs) ys h = elim (Bool-cases (i == id)) [
  | inl here ↦ ground arith
  | inr other ↦ rw other (owner_of-append id xs ys (ground arith))
]

pub owner_of-first :
    (id : ℕ) (xs : List Instance) {row : Instance}
    → first (has_id id) xs ≡ some row
    → owner_of id (map instance_key xs) ≡ some row.owner_id
owner_of-first id [] h = cc
owner_of-first id (i ∷ xs) {row} h = elim (Bool-cases (i.id == id)) [
  | inl here ↦ ground arith
  | inr other ↦ rw other (owner_of-first id xs {row = row} (ground arith))
]

-- The row that an insertion adds, under an identifier that was not used.
pub owner_of-new :
    (id : ℕ) (xs : List Event) (e : Event)
    → exists (event_has_id id) xs ≡ false
    → e.id ≡ id
    → owner_of id (map event_key (xs ++ e ∷ [])) ≡ some e.owner_id
owner_of-new id [] e unused same = ground arith
owner_of-new id (x ∷ xs) e unused same = elim (Bool-cases (x.id == id)) [
  | inl here ↦ ground arith
  | inr other ↦ rw other (owner_of-new id xs e (ground arith) same)
]

-- The rows of other identifiers stay.
pub owner_of-delete :
    (k id owner : ℕ) (xs : List Instance)
    → (k == id) ≡ false
    → owner_of k (map instance_key (delete (owned_by id owner) xs))
      ≡ owner_of k (map instance_key xs)
owner_of-delete k id owner [] other = refl
owner_of-delete k id owner (x ∷ xs) other = ground (arith, owner_of-delete k id owner xs other)

pub delete_none :
    (p : Instance → Bool) (xs : List Instance) → exists p xs ≡ false → delete p xs ≡ xs
delete_none p [] h = refl
delete_none p (x ∷ xs) h = ground (arith, delete_none p xs)
