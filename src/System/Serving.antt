-- ===== src/System/Serving.antt =====
-- A worker whose calls do not fail, on the messages of a state that the processes reach.
use otel_forge.Prelude.{
  ℕ, ◌≡◌, refl, inl, inr, true, false, ◌==◌, ==_iff, some, List, [], ◌∷◌, map, exists, first,
  Bool-cases, arith,
}
use otel_forge.Models.{Bytes, Job}
use otel_forge.Action.{Env, World, JobMessage}
use otel_forge.Queue.{deliver}
use otel_forge.Runner.Worker.{work, deliver_keys}
use otel_forge.Store.Jobs.{job_has_id}
use otel_forge.Runner.Frame.{job_key}
use otel_forge.Runner.Settled.{IsOf}
use otel_forge.Pool.{Pool}
use otel_forge.System.{Reach}
use otel_forge.System.Owners.{owner_of, AllOneOwner}
use otel_forge.System.Reached.{Reach-AllOneOwner}
use otel_forge.System.Messages.{names, AllKnown}
use otel_forge.System.Keeping.{keys-Keeps}
use otel_forge.System.Deliveries.{deliver-AllKnown}
use otel_forge.System.Known.{messages_name_jobs}
use otel_forge.System.Distinct.{AllDistinct, JobsDistinct, keys-Separates}
use otel_forge.System.Identifiers.{job_ids_distinct}

-- The rows that a worker reads are there.
pub record Sound (w : World) : Type 0 where
  pub one_owner : AllOneOwner w
  pub known : AllKnown w
  pub distinct : JobsDistinct w

pub Reach-Sound :
    (c : ℕ) (start s : Pool)
    → start.world.jobs ≡ []
    → start.world.ready ≡ []
    → start.world.dead ≡ []
    → start.unsettled ≡ []
    → Reach c start s
    → Sound s.world
Reach-Sound c start s no_jobs none_ready none_dead none_taken reached = record {
  one_owner = Reach-AllOneOwner c start s no_jobs reached;
  known = (messages_name_jobs c start s none_ready none_dead none_taken reached).queues;
  distinct = job_ids_distinct c start s no_jobs reached;
}

pub deliver-Sound :
    (key : Bytes) (env : Env) (w : World) → Sound w → Sound (deliver (work key) w.ready env w).1
deliver-Sound key env w h =
    let same = deliver_keys key w.ready env w in
    let u = (deliver (work key) w.ready env w).1 in
    record {
      one_owner = (keys-Keeps w u same).keeps h.one_owner;
      known = deliver-AllKnown key w.ready env w refl h.known;
      distinct = (keys-Separates w u same.job_keys).separates h.distinct;
    }

none_with :
    (i event_id : ℕ) (keys : List (ℕ × ℕ × ℕ))
    → exists (λ (x : ℕ × ℕ × ℕ). x.0 == i) keys ≡ false
    → IsOf i event_id keys
none_with i event_id [] h = tt
none_with i event_id (k ∷ keys) h = (λ e. ground arith, none_with i event_id keys (ground arith))

names-exists :
    (m : JobMessage) (keys : List (ℕ × ℕ × ℕ))
    → exists (names m) keys ≡ true
    → exists (λ (x : ℕ × ℕ × ℕ). x.0 == m.job_id) keys ≡ true
names-exists m [] h = cc
names-exists m (k ∷ keys) h = ground (arith, names-exists m keys)

-- A message that names a job is right about the event of every row with the identifier.
pub known-IsOf :
    (m : JobMessage) (keys : List (ℕ × ℕ × ℕ))
    → AllDistinct keys
    → exists (names m) keys ≡ true
    → IsOf m.job_id m.event_id keys
known-IsOf m [] d h = tt
known-IsOf m (k ∷ keys) (alone, d) h = elim (Bool-cases (names m k)) [
  | inl this ↦
      let same : k.0 ≡ m.job_id = ground arith in
      (λ _. ground arith, none_with m.job_id m.event_id keys (rw (← same) alone))
  | inr not_this ↦
      let later : exists (names m) keys ≡ true = ground arith in
      let there = names-exists m keys later in
      (
        λ e.
            (let same = (==_iff k.0 m.job_id).0 e in
              let none_there : exists (λ (x : ℕ × ℕ × ℕ). x.0 == m.job_id) keys ≡ false =
                rw (← same) alone in
              cc),
        known-IsOf m keys d later,
      )
]

pub first_named :
    (m : JobMessage) (jobs : List Job)
    → exists (names m) (map job_key jobs) ≡ true
    → (j : Job) × (first (job_has_id m.job_id) jobs ≡ some j)
first_named m [] h = cc
first_named m (j ∷ jobs) h = elim (Bool-cases (j.id == m.job_id)) [
  | inl here ↦ (j, rw here refl)
  | inr other ↦ rw other (first_named m jobs (ground arith))
]

pub first_owned {ℓ} :
    {A : Type ℓ} (g : A → ℕ × ℕ) (id : ℕ) (xs : List A) {o : ℕ}
    → owner_of id (map g xs) ≡ some o
    → (a : A) × (first (λ a. (g a).0 == id) xs ≡ some a)
first_owned g id [] h = cc
first_owned g id (x ∷ xs) {o} h = elim (Bool-cases ((g x).0 == id)) [
  | inl here ↦ (x, rw here refl)
  | inr other ↦ rw other (first_owned g id xs {o = o} (ground arith))
]
