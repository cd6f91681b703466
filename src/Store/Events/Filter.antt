-- ===== src/Store/Events/Filter.antt =====
-- The query that `ListEvents` puts together selects what the filter means.
use otel_forge.Prelude.{
  ℕ, zero, suc, ◌+◌, ◌≤◌, ◌≡◌, ◌∙◌, refl, String, Bool, true, ◌&&◌, Option, none, some, List, [],
  ◌∷◌, ◌++◌, ◌==◌, leb, str_eq, is_blank, if◌then◌else◌, length, length-append, All, All-map,
  All-append, arith, Bool-cases, inl, inr, select, select-congr, order_by,
}
use otel_forge.Prelude.Text.{◌⧺◌}
use otel_forge.Models.{task_text, event_status_text, Event, EventFilter}
use otel_forge.Action.{Env, World, ok, ◌>>=◌}
use otel_forge.Store.Events.Query.{
  Condition, owner_id_eq, launcher_email_ilike, status_eq, task_type_eq, created_at_ge,
  created_at_le, Arg, id, text, time, Query, start, add, add_text, add_id, add_time, build,
  argument, meets, meets_all, newer, list_events,
}

-- The tests that a filter asks for, each left out where its field is empty.
abbrev pub fits_id : Option ℕ → ℕ → Bool
fits_id none owner = true
fits_id (some i) owner = owner == i

abbrev pub fits_from : Option ℕ → ℕ → Bool
fits_from none t = true
fits_from (some from) t = leb from t

abbrev pub fits_to : Option ℕ → ℕ → Bool
fits_to none t = true
fits_to (some to) t = leb t to

abbrev pub matches : Env → EventFilter → Event → Bool
matches env f e =
    fits_id f.owner_id e.owner_id
    && ((if is_blank f.launcher_email
          then true
          else env.ilike e.launcher_email ("%" ⧺ f.launcher_email ⧺ "%"))
        && ((if is_blank f.status then true else str_eq (event_status_text e.status) f.status)
            && ((if is_blank f.task_type then true else str_eq (task_text e.task_type) f.task_type)
                && (fits_from f.from e.created_at && fits_to f.to e.created_at))))

argument-append : (n : ℕ) (xs ys : List Arg) → n ≤ length xs → argument n (xs ++ ys) ≡ argument n xs
argument-append zero [] [] h = refl
argument-append zero [] (y ∷ ys) h = refl
argument-append (suc n) [] ys h = absurd (omega arith)
argument-append zero (x ∷ xs) ys h = refl
argument-append (suc zero) (x ∷ xs) ys h = refl
argument-append (suc (suc n)) (x ∷ xs) ys h = argument-append (suc n) xs ys (omega arith)

argument-last : (xs : List Arg) (a : Arg) → argument (suc (length xs)) (xs ++ a ∷ []) ≡ some a
argument-last [] a = refl
argument-last (x ∷ xs) a = argument-last xs a

-- The counter is one more than the arguments, and every placeholder has its argument.
pub record IsNumbered (q : Query) : Type 0 where
  pub counter : q.n ≡ suc (length q.args)
  pub placed : All (λ (p : Condition × ℕ). p.1 ≤ length q.args) q.conditions

start-IsNumbered : IsNumbered start
start-IsNumbered = record { counter = refl; placed = tt }

add-IsNumbered : (c : Condition) (a : Arg) (q : Query) → IsNumbered q → IsNumbered (add c a q)
unfolding add
add-IsNumbered c a q h =
    let longer = length-append q.args (a ∷ []) in
    record {
      counter = omega (arith, h.counter, longer);
      placed =
          All-append _ q.conditions ((c, q.n) ∷ [])
            (All-map q.conditions (λ p le. omega (arith, longer)) h.placed)
            (omega (arith, h.counter, longer), tt);
    }

module _ (env : Env) (e : Event) where
  meets_all-more :
      (cs : List (Condition × ℕ)) (xs ys : List Arg)
      → All (λ (p : Condition × ℕ). p.1 ≤ length xs) cs
      → meets_all env e cs (xs ++ ys) ≡ meets_all env e cs xs
  unfolding meets_all
  meets_all-more [] xs ys h = refl
  meets_all-more ((c, n) ∷ cs) xs ys h =
      rw (argument-append n xs ys h.0, meets_all-more cs xs ys h.1)

  meets_all-append :
      (cs ds : List (Condition × ℕ)) (xs : List Arg)
      → meets_all env e (cs ++ ds) xs ≡ (meets_all env e cs xs && meets_all env e ds xs)
  unfolding meets_all
  meets_all-append [] ds xs = refl
  meets_all-append ((c, n) ∷ cs) ds xs = ground (arith, meets_all-append cs ds xs)

  answers : Query → Bool
  answers q = meets_all env e q.conditions q.args

  answers-add :
      (c : Condition) (a : Arg) (q : Query)
      → IsNumbered q
      → answers (add c a q) ≡ (answers q && meets env e c (some a))
  unfolding answers add meets_all
  answers-add c a q h =
      meets_all-append q.conditions ((c, q.n) ∷ []) (q.args ++ a ∷ [])
      ∙ rw (meets_all-more q.conditions q.args (a ∷ []) h.placed, h.counter, argument-last q.args a)
          (ground arith)

  -- A builder step adds one test to the answer, and keeps the numbering.
  record Adds (q q' : Query) (b : Bool) : Type 0 where
    numbered : IsNumbered q'
    answered : answers q' ≡ (answers q && b)

  and_true : (b : Bool) → b ≡ (b && true)
  and_true b = ground arith

  Adds-add :
      (c : Condition) (a : Arg) (q : Query)
      → IsNumbered q
      → Adds q (add c a q) (meets env e c (some a))
  Adds-add c a q h = record { numbered = add-IsNumbered c a q h; answered = answers-add c a q h }

  Adds-nothing : (q : Query) → IsNumbered q → Adds q q true
  Adds-nothing q h = record { numbered = h; answered = and_true (answers q) }

  Adds-text :
      (c : Condition) (s a : String) (q : Query)
      → IsNumbered q
      → Adds q (add_text c s a q) (if is_blank s then true else meets env e c (some (text a)))
  Adds-text c s a q h = elim (Bool-cases (is_blank s)) [
    | inl blank ↦ rw blank (Adds-nothing q h)
    | inr given ↦ rw given (Adds-add c (text a) q h)
  ]

  Adds-owner :
      (o : Option ℕ) (q : Query)
      → IsNumbered q
      → Adds q (add_id owner_id_eq o q) (fits_id o e.owner_id)
  unfolding meets
  Adds-owner none q h = Adds-nothing q h
  Adds-owner (some i) q h = Adds-add owner_id_eq (id i) q h

  Adds-from :
      (t : Option ℕ) (q : Query)
      → IsNumbered q
      → Adds q (add_time created_at_ge t q) (fits_from t e.created_at)
  unfolding meets
  Adds-from none q h = Adds-nothing q h
  Adds-from (some t) q h = Adds-add created_at_ge (time t) q h

  Adds-to :
      (t : Option ℕ) (q : Query)
      → IsNumbered q
      → Adds q (add_time created_at_le t q) (fits_to t e.created_at)
  unfolding meets
  Adds-to none q h = Adds-nothing q h
  Adds-to (some t) q h = Adds-add created_at_le (time t) q h

  answers-start : answers start ≡ true
  unfolding answers meets_all
  answers-start = refl

  build-matches : (f : EventFilter) → answers (build f) ≡ matches env f e
  unfolding build meets
  build-matches f =
      let like : String = "%" ⧺ f.launcher_email ⧺ "%" in
      let s1 = Adds-owner f.owner_id start start-IsNumbered in
      let s2 = Adds-text launcher_email_ilike f.launcher_email like _ s1.numbered in
      let s3 = Adds-text status_eq f.status f.status _ s2.numbered in
      let s4 = Adds-text task_type_eq f.task_type f.task_type _ s3.numbered in
      let s5 = Adds-from f.from _ s4.numbered in
      let s6 = Adds-to f.to _ s5.numbered in
      rw
        (
          s6.answered, s5.answered, s4.answered, s3.answered, s2.answered, s1.answered,
          answers-start,
        )
        (ground arith)

-- `ListEvents`, where its statement does not fail, returns exactly the events that meet every
-- test of the filter whose field is given, the newest first; the placeholder of each condition
-- names the argument that was put in for it. It changes no table.
pub list_events_exact :
    (f : EventFilter) (env : Env) (w : World)
    → env.fault w.calls ≡ none
    → list_events f env w
      ≡ (ok (order_by newer (select (matches env f) w.events)), record w { calls = w.calls + 1 })
unfolding list_events answers ◌>>=◌
list_events_exact f env w fine =
    let same =
      select-congr (λ e. meets_all env e (build f).conditions (build f).args) (matches env f)
        w.events (λ e. build-matches env e f) in
    rw (fine, same)
