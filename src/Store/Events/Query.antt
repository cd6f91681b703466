-- ===== src/Store/Events/Query.antt =====
-- internal/db/store.go, `ListEvents`: the query that is put together from the filter.
-- A condition of the WHERE clause compares a column with a placeholder `$n`, and the arguments
-- stand in a list, from `$1` on.
use otel_forge.Prelude.{
  ℕ, zero, suc, ◌+◌, String, Bool, true, false, ◌&&◌, Option, none, some, List, [], ◌∷◌, ◌++◌, ◌==◌,
  leb, ltb, str_eq, is_blank, if◌then◌else◌, select, order_by,
}
use otel_forge.Prelude.Text.{◌⧺◌}
use otel_forge.Models.{task_text, event_status_text, Event, EventFilter}
use otel_forge.Action.{Env, Action, pure, ◌>>=◌, ◌>>◌, get_db, get_env, call}

-- The columns with the comparison that the query makes on each.
pub data Condition : Type 0 where
  owner_id_eq launcher_email_ilike status_eq task_type_eq created_at_ge created_at_le : Condition

pub data Arg : Type 0 where
  id : ℕ → Arg
  text : String → Arg
  time : ℕ → Arg

-- The builder `b`, the list `args` and the counter `n`.
pub record Query : Type 0 where
  pub conditions : List (Condition × ℕ)
  pub args : List Arg
  pub n : ℕ

abbrev pub start : Query
start = record { conditions = []; args = []; n = 1 }

-- `fmt.Fprintf(&b, " AND … $%d", n)`, `args = append(args, …)` and `n++`
unfoldable pub add : Condition → Arg → Query → Query
add c a q = record {
  conditions = q.conditions ++ (c, q.n) ∷ [];
  args = q.args ++ a ∷ [];
  n = q.n + 1;
}

abbrev pub add_text : Condition → String → String → Query → Query
add_text c s a q = if is_blank s then q else add c (text a) q

abbrev pub add_id : Condition → Option ℕ → Query → Query
add_id c none q = q
add_id c (some i) q = add c (id i) q

abbrev pub add_time : Condition → Option ℕ → Query → Query
add_time c none q = q
add_time c (some t) q = add c (time t) q

unfoldable pub build : EventFilter → Query
build f =
    let q1 = add_id owner_id_eq f.owner_id start in
    let q2 = add_text launcher_email_ilike f.launcher_email ("%" ⧺ f.launcher_email ⧺ "%") q1 in
    let q3 = add_text status_eq f.status f.status q2 in
    let q4 = add_text task_type_eq f.task_type f.task_type q3 in
    let q5 = add_time created_at_ge f.from q4 in add_time created_at_le f.to q5

-- The n-th argument, from 1 on.
abbrev pub argument : ℕ → List Arg → Option Arg
argument n [] = none
argument zero (a ∷ rest) = none
argument (suc zero) (a ∷ rest) = some a
argument (suc (suc n)) (a ∷ rest) = argument (suc n) rest

-- What PostgreSQL answers for one condition of a row; an argument of another type fits none.
unfoldable pub meets : Env → Event → Condition → Option Arg → Bool
meets env e owner_id_eq (some (id i)) = e.owner_id == i
meets env e launcher_email_ilike (some (text s)) = env.ilike e.launcher_email s
meets env e status_eq (some (text s)) = str_eq (event_status_text e.status) s
meets env e task_type_eq (some (text s)) = str_eq (task_text e.task_type) s
meets env e created_at_ge (some (time t)) = leb t e.created_at
meets env e created_at_le (some (time t)) = leb e.created_at t
meets _ _ _ _ = false

unfoldable pub meets_all : Env → Event → List (Condition × ℕ) → List Arg → Bool
meets_all env e [] args = true
meets_all env e ((c, n) ∷ cs) args = meets env e c (argument n args) && meets_all env e cs args

abbrev pub newer : Event → Event → Bool
newer e e' = ltb e'.created_at e.created_at

unfoldable pub list_events : EventFilter → Action (List Event)
list_events f = do
  call
  env ← get_env
  db ← get_db
  let q = build f
  pure (order_by newer (select (λ e. meets_all env e q.conditions q.args) db.events))
