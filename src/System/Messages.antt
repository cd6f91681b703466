-- ===== src/System/Messages.antt =====
-- The messages on the queues, and the jobs that they name.
use otel_forge.Prelude.{
  ℕ, ◌+◌, ◌≡◌, ◌∙◌, refl, ap, inl, inr, Bool, true, ◌&&◌, ◌==◌, ==_refl, Option, none, some, List,
  [], ◌∷◌, ◌++◌, map, map-append, All, All-append, All-map, exists, Option-cases, arith,
}
use otel_forge.Models.{TaskType, Job}
use otel_forge.Action.{Env, World, JobMessage, Delivery, pure, ◌>>=◌}
use otel_forge.Action.Rules.{Does-step, Frame}
use otel_forge.Queue.{publish, enqueue}
use otel_forge.Service.{message_of, publish_all}
use otel_forge.Runner.Frame.{job_key}

-- The message says of a row of `jobs` which event and which instance it is for.
abbrev pub names : JobMessage → ℕ × ℕ × ℕ → Bool
names m k = k.0 == m.job_id && (k.1 == m.event_id && k.2 == m.instance_id)

abbrev pub IsKnown : List (ℕ × ℕ × ℕ) → Option JobMessage → Type 0
IsKnown keys none = Unit
IsKnown keys (some m) = exists (names m) keys ≡ true

-- Every message that can be read, names a job.
pub record AllKnown (w : World) : Type 0 where
  pub ready_known : All (λ (d : Delivery). IsKnown (map job_key w.jobs) d.body) w.ready
  pub dead_known : All (λ (d : Delivery). IsKnown (map job_key w.jobs) d.body) w.dead

pub record Tracks (w w' : World) : Type 0 where
  pub tracks : AllKnown w → AllKnown w'
  pub still_known :
      (b : Option JobMessage) → IsKnown (map job_key w.jobs) b → IsKnown (map job_key w'.jobs) b

pub Tracks-Frame : Frame Tracks
Tracks-Frame = record {
  same = λ w. record { tracks = λ a. a; still_known = λ b k. k };
  then_ = λ u v w h k. record {
    tracks = λ a. k.tracks (h.tracks a);
    still_known = λ b known. k.still_known b (h.still_known b known);
  };
  counted = λ w n. record {
    tracks = λ a. record { ready_known = a.ready_known; dead_known = a.dead_known };
    still_known = λ b k. k;
  };
}

-- Where the queues and the keys of the jobs are the same.
pub same-Tracks :
    (w w' : World)
    → map job_key w'.jobs ≡ map job_key w.jobs
    → w'.ready ≡ w.ready
    → w'.dead ≡ w.dead
    → Tracks w w'
same-Tracks w w' jobs ready dead = record {
  tracks = λ a. record {
    ready_known = rw (jobs, ready) a.ready_known;
    dead_known = rw (jobs, dead) a.dead_known;
  };
  still_known = λ b k. rw jobs k;
}

exists-append :
    (m : JobMessage) (xs ys : List (ℕ × ℕ × ℕ))
    → exists (names m) xs ≡ true
    → exists (names m) (xs ++ ys) ≡ true
exists-append m [] ys h = cc
exists-append m (x ∷ xs) ys h = ground (arith, exists-append m xs ys)

pub exists-after :
    (m : JobMessage) (xs ys : List (ℕ × ℕ × ℕ))
    → exists (names m) ys ≡ true
    → exists (names m) (xs ++ ys) ≡ true
exists-after m [] ys h = h
exists-after m (x ∷ xs) ys h = ground (arith, exists-after m xs ys)

IsKnown-append :
    (keys more : List (ℕ × ℕ × ℕ)) (b : Option JobMessage)
    → IsKnown keys b
    → IsKnown (keys ++ more) b
IsKnown-append keys more none h = tt
IsKnown-append keys more (some m) h = exists-append m keys more h

-- More jobs.
pub more_jobs-Tracks :
    (w w' : World) (jobs : List Job)
    → w'.jobs ≡ w.jobs ++ jobs
    → w'.ready ≡ w.ready
    → w'.dead ≡ w.dead
    → Tracks w w'
more_jobs-Tracks w w' jobs added ready dead =
    let old = map job_key w.jobs in
    let more = map job_key jobs in
    let keys : map job_key w'.jobs ≡ old ++ more =
      ap (map job_key) added ∙ map-append job_key w.jobs jobs in
    record {
      tracks = λ a. record {
        ready_known =
            rw (keys, ready) (All-map w.ready (λ d. IsKnown-append old more d.body) a.ready_known);
        dead_known =
            rw (keys, dead) (All-map w.dead (λ d. IsKnown-append old more d.body) a.dead_known);
      };
      still_known = λ b k. rw keys (IsKnown-append old more b k);
    }

-- The jobs whose messages are to be sent.
abbrev pub AllNamed : TaskType → List (ℕ × ℕ × ℕ) → List Job → Type 0
AllNamed task keys = All (λ (j : Job). exists (names (message_of task j)) keys ≡ true)

pub jobs-AllNamed : (task : TaskType) (jobs : List Job) → AllNamed task (map job_key jobs) jobs
jobs-AllNamed task [] = tt
jobs-AllNamed task (j ∷ jobs) = (
  ground (arith, ==_refl j.id, ==_refl j.event_id, ==_refl j.instance_id),
  All-map jobs (λ k h. ground (arith, h)) (jobs-AllNamed task jobs),
)

publish-Tracks :
    (m : JobMessage) (env : Env) (w : World)
    → exists (names m) (map job_key w.jobs) ≡ true
    → Tracks w (publish m env w).1 × ((publish m env w).1.jobs ≡ w.jobs)
unfolding publish enqueue ◌>>=◌
publish-Tracks m env w named = elim (Option-cases (env.fault w.calls)) [
  | inr (s, failed) ↦ rw failed (same-Tracks w _ refl refl refl, refl)
  | inl fine ↦ elim (Option-cases (env.fault (w.calls + 1))) [
    | inr (s, failed) ↦ rw (fine, failed) (same-Tracks w _ refl refl refl, refl)
    | inl sent ↦
        rw (fine, sent)
          (
            record {
              tracks = λ a. record {
                ready_known = All-append _ w.ready _ a.ready_known (named, tt);
                dead_known = a.dead_known;
              };
              still_known = λ b k. k;
            },
            refl,
          )
  ]
]

pub publish_all-Tracks :
    (task : TaskType) (jobs : List Job) (env : Env) (w : World)
    → AllNamed task (map job_key w.jobs) jobs
    → Tracks w (publish_all task jobs env w).1
unfolding publish_all pure
publish_all-Tracks task [] env w h = Tracks-Frame.same w
publish_all-Tracks task (j ∷ jobs) env w (h, hs) =
    let (first_step, same) = publish-Tracks (message_of task j) env w h in
    Does-step (publish (message_of task j)) (λ _. publish_all task jobs) env w Tracks-Frame
      first_step (λ _ _. publish_all-Tracks task jobs env _ (rw same hs))
