-- ===== src/Service/Checks.antt =====
-- What has been checked where `Create` goes on, and that the checks change nothing.
use otel_forge.Prelude.{
  ℕ, ◌≡◌, ◌≢◌, ◌∙◌, refl, ◌⊎◌, subst, inl, inr, String, Bool, true, false, not, Option, none, some,
  List, [], ◌∷◌, is_empty, eq_iff, All, All-map, first, Option-cases, if◌then◌else◌, arith,
}
use otel_forge.Models.{requires_config, Instance}
use otel_forge.Action.{
  Env, World, Action, Result, Error, ok, err, pure, raise, lift, require, try, get_env, ◌>>=◌, ◌>>◌,
  instance_not_owned, instance_required,
}
use otel_forge.Action.Rules.{
  Frame, Does, Does-if, Does-try, Does-require, Does-pure, does_rules, >>=-eq-ok,
}
use otel_forge.Store.Instances.{has_id}
use otel_forge.Store.Users.{user_owns_instance}
use otel_forge.Service.{CreateInput, validate_yaml, check_config, refused, check_owned, validate}

-- Only the number of calls differs.
pub record OnlyReads (w w' : World) : Type 0 where
  pub db_same : w'.db ≡ w.db
  pub ready_same : w'.ready ≡ w.ready
  pub dead_same : w'.dead ≡ w.dead
  pub sent_same : w'.sent ≡ w.sent

pub OnlyReads-Frame : Frame OnlyReads
OnlyReads-Frame = record {
  same = λ w. record { db_same = refl; ready_same = refl; dead_same = refl; sent_same = refl };
  then_ = λ u v w h k. record {
    db_same = k.db_same ∙ h.db_same;
    ready_same = k.ready_same ∙ h.ready_same;
    dead_same = k.dead_same ∙ h.dead_same;
    sent_same = k.sent_same ∙ h.sent_same;
  };
  counted = λ w n. record { db_same = refl; ready_same = refl; dead_same = refl; sent_same = refl };
}

pub ruleset reading = (does_rules, OnlyReads-Frame)

user_owns_instance-OnlyReads : (u i : ℕ) → Does OnlyReads (user_owns_instance u i)
unfolding user_owns_instance
user_owns_instance-OnlyReads u i = search reading depth 12

check_owned-OnlyReads : (o : ℕ) (iids : List ℕ) → Does OnlyReads (check_owned o iids)
unfolding check_owned
check_owned-OnlyReads o [] = search reading
check_owned-OnlyReads o (iid ∷ iids) =
    let rest = check_owned-OnlyReads o iids in
    search (reading, user_owns_instance-OnlyReads) depth 12

check_config-OnlyReads : (c : Option String) → Does OnlyReads (check_config c)
unfolding check_config validate_yaml
check_config-OnlyReads none = search reading
check_config-OnlyReads (some c) = search reading depth 12

pub validate-OnlyReads : (i : CreateInput) → Does OnlyReads (validate i)
unfolding validate
validate-OnlyReads i = search (reading, check_config-OnlyReads, check_owned-OnlyReads) depth 12

-- The instance is there and belongs to the user.
pub record OwnedBy (owner_id iid : ℕ) (w : World) : Type 0 where
  pub row : Instance
  pub found : first (has_id iid) w.instances ≡ some row
  pub owned : row.owner_id ≡ owner_id

pub OwnedBy-db : (o iid : ℕ) (u w : World) → u.db ≡ w.db → OwnedBy o iid u → OwnedBy o iid w
OwnedBy-db o iid u w same h = record {
  row = h.row;
  found =
      subst (λ (d : otel_forge.Action.Db). first (has_id iid) d.instances ≡ some h.row) same
        h.found;
  owned = h.owned;
}

user_owns_instance_ok :
    (o iid : ℕ) (env : Env) (w : World)
    → (user_owns_instance o iid env w).0 ≡ ok true
    → OwnedBy o iid w
unfolding user_owns_instance ◌>>=◌
user_owns_instance_ok o iid env w h = elim (Option-cases (env.fault w.calls)) [
  | inl fine ↦ elim (Option-cases (first (has_id iid) w.instances)) [
    | inl missing ↦ ground arith
    | inr (i, found) ↦ record { row = i; found = found; owned = ground arith }
  ]
  | inr (s, failed) ↦ ground arith
]

-- Where the check returns no error, every instance belongs to the user.
pub check_owned_ok :
    (o : ℕ) (iids : List ℕ) (env : Env) (w : World)
    → (check_owned o iids env w).0 ≡ ok tt
    → All (λ iid. OwnedBy o iid w) iids
unfolding check_owned
check_owned_ok o [] env w h = tt
check_owned_ok o (iid ∷ iids) env w h =
    let (r, tried, h1, _) =
      >>=-eq-ok (try (user_owns_instance o iid))
        (λ r. require (not (refused r)) (instance_not_owned iid) >> check_owned o iids) env w h in
    let u = (try (user_owns_instance o iid) env w).1 in
    let (_, passed, h2, _) =
      >>=-eq-ok (require (not (refused r)) (instance_not_owned iid)) (λ _. check_owned o iids) env u
        h1 in
    let v = (require (not (refused r)) (instance_not_owned iid) env u).1 in
    let read =
      OnlyReads-Frame.then_ w u v
        ((Does-try (user_owns_instance o iid) (user_owns_instance-OnlyReads o iid)).at env w)
        ((Does-require (not (refused r)) (instance_not_owned iid) OnlyReads-Frame).at env u) in
    (
      user_owns_instance_ok o iid env w (unfold try require in ground arith),
      All-map iids (λ i. OwnedBy-db o i v w read.db_same) (check_owned_ok o iids env v h2),
    )

-- What the checks of `Create` say of the request.
pub record Checked (i : CreateInput) (env : Env) (w : World) : Type 0 where
  pub some_instance : is_empty i.instance_ids ≡ false
  pub config_given :
      (requires_config i.task_type ≡ false)
      ⊎ ((c : String) × (i.config_content ≡ some c) × (c ≢ "") × (env.yaml_error c ≡ none))
  pub all_owned : All (λ iid. OwnedBy i.owner_id iid w) i.instance_ids

pub Checked-OnlyReads :
    (i : CreateInput) (env : Env) (w u : World) → OnlyReads w u → Checked i env u → Checked i env w
Checked-OnlyReads i env w u read h = record {
  some_instance = h.some_instance;
  config_given = h.config_given;
  all_owned =
      All-map i.instance_ids (λ iid. OwnedBy-db i.owner_id iid u w read.db_same) h.all_owned;
}

check_config_ok :
    (o : Option String) (env : Env) (w : World)
    → (check_config o env w).0 ≡ ok tt
    → (c : String) × (o ≡ some c) × (c ≢ "") × (env.yaml_error c ≡ none)
unfolding check_config validate_yaml ◌>>=◌
check_config_ok none env w h = cc
check_config_ok (some c) env w h =
    (c, refl, ground (arith, eq_iff c ""), ground (arith, eq_iff c ""))

config_part :
    (b : Bool) (o : Option String) (env : Env) (w : World)
    → ((if b then check_config o else pure tt) env w).0 ≡ ok tt
    → (b ≡ false) ⊎ ((c : String) × (o ≡ some c) × (c ≢ "") × (env.yaml_error c ≡ none))
config_part true o env w h = inr (check_config_ok o env w h)
config_part false o env w h = inl refl

config_part-OnlyReads :
    (b : Bool) (o : Option String) → Does OnlyReads (if b then check_config o else pure tt)
config_part-OnlyReads b o =
    Does-if b (check_config o) (pure tt) (check_config-OnlyReads o) (Does-pure tt OnlyReads-Frame)

pub validate_ok :
    (i : CreateInput) (env : Env) (w : World) → (validate i env w).0 ≡ ok tt → Checked i env w
unfolding validate
validate_ok i env w h =
    let b = requires_config i.task_type in
    let some_ids = not (is_empty i.instance_ids) in
    let step2 = if b then check_config i.config_content else pure tt in
    let (_, passed, h1, _) =
      >>=-eq-ok (require some_ids instance_required)
        (λ _. step2 >> check_owned i.owner_id i.instance_ids) env w h in
    let u = (require some_ids instance_required env w).1 in
    let (_, configured, h2, _) =
      >>=-eq-ok step2 (λ _. check_owned i.owner_id i.instance_ids) env u h1 in
    let v = (step2 env u).1 in
    let read =
      OnlyReads-Frame.then_ w u v
        ((Does-require some_ids instance_required OnlyReads-Frame).at env w)
        ((config_part-OnlyReads b i.config_content).at env u) in
    record {
      some_instance = unfold require in ground arith;
      config_given = config_part b i.config_content env u configured;
      all_owned =
          All-map i.instance_ids (λ iid. OwnedBy-db i.owner_id iid v w read.db_same)
            (check_owned_ok i.owner_id i.instance_ids env v h2);
    }
