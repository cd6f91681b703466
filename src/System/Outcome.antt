-- ===== src/System/Outcome.antt =====
-- What an event is when all its jobs have ended.
use otel_forge.Prelude.{
  ℕ, ◌≡◌, inl, inr, true, false, ◌==◌, ==_iff, ==_refl, first-holds, refl, some, List, [], ◌∷◌, map,
  All, All-map, All-first, All-diagonal, exists, first, Bool-cases,
}
use otel_forge.Models.{EventStatus, Job, Event}
use otel_forge.Action.{World}
use otel_forge.Store.Events.{event_has_id}
use otel_forge.Store.Jobs.{job_has_id, of_event}
use otel_forge.Store.Rollup.{is_pending}
use otel_forge.Store.Rollup.Status.{Fits}
use otel_forge.Store.Rollup.Summary.{Summarises, RolledUp}
use otel_forge.Runner.Conclusion.{HasEnded}
use otel_forge.Runner.Frame.{job_key, event_key}
use otel_forge.System.Owners.{owner_of}
use otel_forge.System.Serving.{first_owned}

pub every {ℓ κ} : {A : Type ℓ} {P : A → Type κ} (xs : List A) → ((a : A) → P a) → All P xs
every [] h = tt
every (x ∷ xs) h = (h x, every xs h)

-- If the row is of the event, its job has ended.
abbrev pub Ends : ℕ → World → ℕ × ℕ × ℕ → Type 0
Ends event_id u k =
    All (λ j. (k.1 == event_id) ≡ true → job_has_id k.0 j ≡ true → HasEnded j) u.jobs

Ends-jobs :
    (id : ℕ) (u : World) (jobs : List Job)
    → All (Ends id u) (map job_key jobs)
    → All (λ j. All (λ k. of_event id j ≡ true → job_has_id j.id k ≡ true → HasEnded k) u.jobs) jobs
Ends-jobs id u [] h = tt
Ends-jobs id u (j ∷ jobs) (h, rest) = (h, Ends-jobs id u jobs rest)

pub Ends-ended :
    (id : ℕ) (u : World)
    → All (Ends id u) (map job_key u.jobs)
    → All (λ j. of_event id j ≡ true → HasEnded j) u.jobs
Ends-ended id u ends =
    All-map u.jobs (λ j h mine. h mine (==_refl j.id))
      (All-diagonal (λ j k. of_event id j ≡ true → job_has_id j.id k ≡ true → HasEnded k) u.jobs
        (Ends-jobs id u u.jobs ends))

-- A status that says that the work is over.
abbrev pub IsFinal : EventStatus → Type 0
IsFinal EventStatus.queued = ⊥
IsFinal EventStatus.running = ⊥
IsFinal EventStatus.completed = Unit
IsFinal EventStatus.failed = Unit
IsFinal EventStatus.partial = Unit

-- Every job of the event has ended, and its row has a final status and the counts of the jobs.
pub record Finished (id : ℕ) (w : World) : Type 0 where
  pub row : Event
  pub found : first (event_has_id id) w.events ≡ some row
  pub is_final : IsFinal row.status
  pub summarises : Summarises w.jobs row
  pub all_ended : All (λ j. of_event id j ≡ true → HasEnded j) w.jobs

none_pending :
    (id : ℕ) (jobs : List Job)
    → All (λ j. of_event id j ≡ true → HasEnded j) jobs
    → exists (is_pending id) jobs ≡ false
none_pending id [] h = refl
none_pending id (j ∷ jobs) (h, rest) = elim (Bool-cases (of_event id j)) [
  | inr other ↦ rw other (none_pending id jobs rest)
  | inl mine ↦ elim (h mine) [
    | inl (verified, _) ↦ rw (mine, verified) (none_pending id jobs rest)
    | inr (failed, _) ↦ rw (mine, failed) (none_pending id jobs rest)
  ]
]

Fits-IsFinal :
    (id : ℕ) (jobs : List Job) (s : EventStatus)
    → All (λ j. of_event id j ≡ true → HasEnded j) jobs
    → Fits id jobs s
    → IsFinal s
Fits-IsFinal id jobs EventStatus.queued ended fits = fits
Fits-IsFinal id jobs EventStatus.running ended fits = cc (none_pending id jobs ended, fits)
Fits-IsFinal id jobs EventStatus.completed ended fits = tt
Fits-IsFinal id jobs EventStatus.failed ended fits = tt
Fits-IsFinal id jobs EventStatus.partial ended fits = tt

pub Finished_lem :
    (id : ℕ) (w : World) {owner : ℕ}
    → owner_of id (map event_key w.events) ≡ some owner
    → RolledUp id w.db
    → All (λ j. of_event id j ≡ true → HasEnded j) w.jobs
    → Finished id w
Finished_lem id w there rolled ended =
    let (row, found) = first_owned event_key id w.events there in
    let says = All-first (λ e. Summarises w.jobs e) (event_has_id id) w.events rolled found in
    let here : row.id ≡ id = (==_iff row.id id).0 (first-holds (event_has_id id) w.events found) in
    record {
      row = row;
      found = found;
      is_final = Fits-IsFinal id w.jobs row.status ended (rw (← here) says.status_fits);
      summarises = says;
      all_ended = ended;
    }
