-- ===== src/Service/Copy.antt =====
-- What `Clone` launches.
use otel_forge.Prelude.{ℕ, ◌≡◌, ◌∙◌, sym, ap, subst, not, some, first, arith}
use otel_forge.Models.{EventDetail}
use otel_forge.Action.{Env, World, Result, ok, try, require, ◌>>=◌, ◌>>◌, event_not_found}
use otel_forge.Action.Rules.{Does-try, Does-require, >>=-eq-ok}
use otel_forge.Store.Users.{user_owns_event}
use otel_forge.Store.Events.{event_has_id, get_event}
use otel_forge.Service.{CreateInput, refused, create, cloned_input, clone}
use otel_forge.Service.Checks.{Checked, Checked-OnlyReads, OnlyReads-Frame}
use otel_forge.Service.Launch.{Launched, Launched-OnlyReads, create_launches}
use otel_forge.Service.Rerun.{
  EventOwnedBy, get_event-OnlyReads, get_event_row, user_owns_event-OnlyReads, user_owns_event_ok,
  EventOwnedBy-OnlyReads,
}

-- What a successful `Clone` has done.
pub record Cloned (source_id owner_id : ℕ) (overrides : CreateInput) (ev : EventDetail) (env : Env)
    (w w' : World) : Type 0 where
  pub source : EventDetail
  pub found : first (event_has_id source_id) w.events ≡ some source.event
  pub owned : EventOwnedBy owner_id source_id w
  pub checked : Checked (cloned_input source owner_id overrides) env w
  pub launched : Launched (cloned_input source owner_id overrides) ev w w'
  pub task_kept : ev.task_type ≡ source.task_type
  pub owner_kept : ev.owner_id ≡ source.owner_id

same_owner :
    (source_id owner_id : ℕ) (w : World) (src : EventDetail) {o : ℕ}
    → first (event_has_id source_id) w.events ≡ some src.event
    → EventOwnedBy owner_id source_id w
    → o ≡ owner_id
    → o ≡ src.owner_id
same_owner source_id owner_id w src found owned same =
    let row : some owned.row ≡ some src.event = sym owned.found ∙ found in
    let rows : owned.row ≡ src.event = cc in
    same ∙ sym owned.owned ∙ ap (λ (e : otel_forge.Models.Event). e.owner_id) rows

-- When `Clone` returns an event, the source is there and belongs to the caller, for an
-- administrator too; and the event that `Create` has launched from the source and the overrides,
-- with its checks passed, has the task and the owner of the source.
pub clone_launches :
    (source_id owner_id : ℕ) (overrides : CreateInput) (env : Env) (w : World) (ev : EventDetail)
    → (clone source_id owner_id overrides env w).0 ≡ ok ev
    → Cloned source_id owner_id overrides ev env w (clone source_id owner_id overrides env w).1
unfolding clone
clone_launches source_id owner_id overrides env w ev h =
    let (src, got, h1, e1) =
      >>=-eq-ok (get_event source_id)
        (λ src. try (user_owns_event owner_id source_id) >>= λ r.
          require (not (refused r)) event_not_found >> create (cloned_input src owner_id overrides))
        env w h in
    let u = (get_event source_id env w).1 in
    let (r, tried, h2, e2) =
      >>=-eq-ok (try (user_owns_event owner_id source_id))
        (λ r.
          require (not (refused r)) event_not_found >> create (cloned_input src owner_id overrides))
        env u h1 in
    let v = (try (user_owns_event owner_id source_id) env u).1 in
    let (_, allowed, h3, e3) =
      >>=-eq-ok (require (not (refused r)) event_not_found)
        (λ _. create (cloned_input src owner_id overrides)) env v h2 in
    let x = (require (not (refused r)) event_not_found env v).1 in
    let i = cloned_input src owner_id overrides in
    let read1 = (get_event-OnlyReads source_id).at env w in
    let read2 = (Does-try _ (user_owns_event-OnlyReads owner_id source_id)).at env u in
    let read3 = (Does-require (not (refused r)) event_not_found OnlyReads-Frame).at env v in
    let read = OnlyReads-Frame.then_ w v x (OnlyReads-Frame.then_ w u v read1 read2) read3 in
    let (checked, launched) = create_launches i env x ev h3 in
    let owned =
      EventOwnedBy-OnlyReads owner_id source_id w u read1
        (user_owns_event_ok owner_id source_id env u (unfold try require in ground arith)) in
    let found = get_event_row source_id env w got in
    subst (λ (o : Result EventDetail × World). Cloned source_id owner_id overrides ev env w o.1)
      (sym (e1 ∙ e2 ∙ e3))
      (record {
        source = src;
        found = found;
        owned = owned;
        checked = Checked-OnlyReads i env w x read checked;
        launched = Launched-OnlyReads i ev w x _ read launched;
        task_kept = unfold cloned_input in launched.task_same;
        owner_kept =
            same_owner source_id owner_id w src found owned
              (unfold cloned_input in launched.owner_same);
      })
