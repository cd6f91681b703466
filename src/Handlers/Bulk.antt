-- ===== src/Handlers/Bulk.antt =====
-- The registration in bulk: what the loop stores, and what the reply counts.
use otel_forge.Prelude.{
  ℕ, ◌+◌, ◌≡◌, ◌∙◌, refl, sym, subst, String, Option, none, some, List, [], ◌∷◌, ◌++◌, map, length,
  All, arith,
}
use mathlib.Core.List.{append-nil, append_assoc}
use otel_forge.Models.{Bytes, User, Instance}
use otel_forge.Action.{Env, World, Result, ok, err, pure, try, get_env, ◌>>=◌}
use otel_forge.Action.Rules.{>>=-eq-ok, try_ok}
use otel_forge.Handlers.Replies.{Reply, json}
use otel_forge.Handlers.Instances.{
  InstanceDto, to_dto, bulk_row, collect, bulk_rows, BulkResult, bulk_result, bulk_table,
  bulk_create,
}
use otel_forge.Handlers.BulkRow.{bulk_row_err, bulk_row-Stored}

module _ (key : Bytes) (user : User) (env : Env) where
  -- What the loop has stored, and its two lists.
  pub record AllStored (rows : List (List String)) (out : List InstanceDto × List String)
      (w w' : World) : Type 0 where
    pub added : List Instance
    pub db_then : w'.db ≡ record w.db { instances = w.instances ++ added }
    pub all_owned : All (λ (i : Instance). i.owner_id ≡ user.id) added
    pub shown : out.0 ≡ map (to_dto "") added
    pub every_row : length out.0 + length out.1 ≡ length rows

  AllStored-cons :
      (row : List String) (rows : List (List String)) (r : Result InstanceDto)
      (rest : List InstanceDto × List String) (w u v : World)
      → (bulk_row key user row env w).0 ≡ r
      → u ≡ (bulk_row key user row env w).1
      → AllStored rows rest u v
      → AllStored (row ∷ rows) (collect r rest) w v
  AllStored-cons row rows (ok d) rest w u v done same ih =
      let s = bulk_row-Stored key user env row w done in
      record {
        added = s.row ∷ ih.added;
        db_then = ih.db_then ∙ rw (same, s.db_then) (simp append_assoc);
        all_owned = (s.owner_same, ih.all_owned);
        shown = rw (s.shown, ih.shown) refl;
        every_row = omega (arith, ih.every_row);
      }
  AllStored-cons row rows (err e) rest w u v done same ih = record {
    added = ih.added;
    db_then = ih.db_then ∙ rw (same, bulk_row_err key user env row w done) refl;
    all_owned = ih.all_owned;
    shown = ih.shown;
    every_row = omega (arith, ih.every_row);
  }

  bulk_rows_stored :
      (rows : List (List String)) (w : World) {out : List InstanceDto × List String}
      → (bulk_rows key user rows env w).0 ≡ ok out
      → AllStored rows out w (bulk_rows key user rows env w).1
  unfolding bulk_rows pure
  bulk_rows_stored [] w {out} h =
      let none_made : ([], []) ≡ out = cc in
      subst (λ o. AllStored [] o w w) none_made
        (record {
          added = [];
          db_then = simp append-nil;
          all_owned = tt;
          shown = refl;
          every_row = refl;
        })
  bulk_rows_stored (row ∷ rows) w {out} h =
      let (r, tried, h1, e1) =
        >>=-eq-ok (try (bulk_row key user row))
          (λ r. bulk_rows key user rows >>= λ rest. pure (collect r rest)) env w h in
      let u = (try (bulk_row key user row) env w).1 in
      let (rest, looped, h2, e2) =
        >>=-eq-ok (bulk_rows key user rows) (λ rest. pure (collect r rest)) env u h1 in
      let v = (bulk_rows key user rows env u).1 in
      let ih = bulk_rows_stored rows u looped in
      let known = try_ok (bulk_row key user row) env w tried in
      let collected : collect r rest ≡ out = cc in
      subst
        (λ (x : Result (List InstanceDto × List String) × World). AllStored (row ∷ rows) out w x.1)
        (sym (e1 ∙ e2))
        (subst (λ o. AllStored (row ∷ rows) o w v) collected
          (AllStored-cons row rows r rest w u v known (unfold try in refl) ih))

bulk_table_counts :
    (key : Bytes) (user : User) (table : Option (List (List String))) (env : Env) (w : World)
    (n : ℕ) (b : BulkResult)
    → (bulk_table key user table env w).0 ≡ ok (json n b)
    → (n ≡ 200)
      × ((header : List String) × (rows : List (List String)) × (table ≡ some (header ∷ rows))
          × AllStored key user env rows
              (b.instances, b.errors)
              w
              (bulk_table key user table env w).1)
unfolding bulk_table pure
bulk_table_counts key user none env w n b h = cc
bulk_table_counts key user (some []) env w n b h = cc
bulk_table_counts key user (some (header ∷ [])) env w n b h = cc
bulk_table_counts key user (some (header ∷ row ∷ rows)) env w n b h =
    let (out, looped, h1, e1) =
      >>=-eq-ok (bulk_rows key user (row ∷ rows)) (λ out. pure (json 200 (bulk_result out))) env w
        h in
    let stored = bulk_rows_stored key user env (row ∷ rows) w looped in
    let code : n ≡ 200 = cc in
    let result : bulk_result out ≡ b = cc in
    (
      code,
      (
        header,
        row ∷ rows,
        refl,
        subst
            (λ (o : Result (Reply BulkResult) × World).
              AllStored key user env (row ∷ rows) (b.instances, b.errors) w o.1)
            (sym e1)
            (subst
              (λ (x : BulkResult).
                AllStored key user env (row ∷ rows) (x.instances, x.errors) w
                  (bulk_rows key user (row ∷ rows) env w).1)
              result stored),
      ),
    )

-- When a registration in bulk is answered with a result, the status is 200; the text is CSV with a
-- first row and others; each of the others is either an instance or an error in the reply; and
-- exactly the instances of the reply are new in the tables, in order, all of the sender, and
-- nothing else has changed there.
pub bulk_create_counts :
    (key : Bytes) (user : User) (csv : String) (env : Env) (w : World) (n : ℕ) (b : BulkResult)
    → (bulk_create key user (some csv) env w).0 ≡ ok (json n b)
    → (n ≡ 200)
      × ((header : List String) × (rows : List (List String)) × (env.read_csv csv
            ≡ some (header ∷ rows))
          × AllStored key user env rows
              (b.instances, b.errors)
              w
              (bulk_create key user (some csv) env w).1)
unfolding bulk_create get_env ◌>>=◌
bulk_create_counts key user csv env w n b h =
    bulk_table_counts key user (env.read_csv csv) env w n b h
