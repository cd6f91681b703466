-- ===== src/Store/Instances.antt =====
-- internal/db/store.go: the instances.
use otel_forge.Prelude.{
  ℕ, String, Bool, true, not, ◌&&◌, ◌||◌, Option, none, some, List, [], ◌∷◌, ◌++◌, ◌==◌, ltb, ◌^◌,
  str_eq, exists, first, select, update, delete, order_by,
}
use otel_forge.Prelude.Int.{ℤ, pos, negsuc}
use otel_forge.Models.{Bytes, User, Instance, InstanceListing, Job}
use otel_forge.Action.{
  Action, Result, ok, err, pure, lift, or_raise, try, ◌>>=◌, ◌>>◌, get_db, get_env, modify_db, call,
  require, no_rows, duplicate_key, foreign_key, instance_not_found, number_range,
}

abbrev pub has_id : ℕ → Instance → Bool
has_id id i = i.id == id

-- `WHERE id=… AND owner_id=…`
abbrev pub owned_by : ℕ → ℕ → Instance → Bool
owned_by id owner_id i = i.id == id && i.owner_id == owner_id

-- What a column of type INT holds.
abbrev fits_int : ℤ → Bool
fits_int (pos n) = ltb n (2 ^ 31)
fits_int (negsuc n) = ltb n (2 ^ 31)

-- `owner_id` references `users`, and `port` is an INT.
unfoldable pub create_instance :
    ℕ → String → String → ℤ → String → Option Bytes → Option Bytes → Action Instance
create_instance owner_id name host port ssh_user password_enc key_enc = do
  n ← call
  env ← get_env
  db ← get_db
  let inst : Instance = record {
    id = env.fresh n;
    owner_id = owner_id;
    name = name;
    host = host;
    port = port;
    ssh_user = ssh_user;
    ssh_password_enc = password_enc;
    ssh_private_key_enc = key_enc;
    ssh_host_key_fingerprint = none;
    created_at = env.now n;
  }
  require (fits_int port) number_range
  require (exists (λ (u : User). u.id == owner_id) db.users) foreign_key
  require (not (exists (has_id inst.id) db.instances)) duplicate_key
  modify_db (λ d. record d { instances = d.instances ++ inst ∷ [] })
  pure inst

unfoldable pub get_instance : ℕ → Action Instance
get_instance id = do call; db ← get_db; lift (or_raise (first (has_id id) db.instances) no_rows)

-- The inner join with `users`: an instance with no owner gives no row.
abbrev join_owner : List User → List Instance → List InstanceListing
join_owner users [] = []
join_owner users (i ∷ is) = elim (first (λ (u : User). u.id == i.owner_id) users) [
  | none ↦ join_owner users is
  | some u ↦ record { instance_row = i; owner_email = u.email } ∷ join_owner users is
]

unfoldable pub list_instances : ℕ → Bool → Action (List InstanceListing)
list_instances owner_id admin = do
  call
  db ← get_db
  let mine = select (λ (i : Instance). admin || i.owner_id == owner_id) db.instances
  let newer = λ (i j : Instance). ltb j.created_at i.created_at
  pure (join_owner db.users (order_by newer mine))

-- `RowsAffected() == 0` says that no row met the condition.
unfoldable pub update_instance :
    ℕ → ℕ → String → String → ℤ → String → Option Bytes → Action (Unit {0})
update_instance id owner_id name host port ssh_user enc = do
  call
  require (fits_int port) number_range
  db ← get_db
  modify_db (λ d. record d {
    instances =
        update (owned_by id owner_id)
          (λ i. record i {
            name = name;
            host = host;
            port = port;
            ssh_user = ssh_user;
            ssh_password_enc = enc;
            ssh_host_key_fingerprint = none;
          })
          d.instances;
  })
  require (exists (owned_by id owner_id) db.instances) instance_not_found

unfoldable pub update_ssh_statement : ℕ → ℕ → String → Option Bytes → Option Bytes → Action Instance
update_ssh_statement id owner_id ssh_user password_enc key_enc = do
  call
  modify_db (λ d. record d {
    instances =
        update (owned_by id owner_id)
          (λ i. record i {
            ssh_user = ssh_user;
            ssh_password_enc = password_enc;
            ssh_private_key_enc = key_enc;
          })
          d.instances;
  })
  db ← get_db
  lift (or_raise (first (owned_by id owner_id) db.instances) no_rows)

-- Any error of the statement reads "instance not found".
abbrev as_not_found : Result Instance → Result Instance
as_not_found (ok i) = ok i
as_not_found (err _) = err instance_not_found

unfoldable pub update_instance_ssh : ℕ → ℕ → String → Option Bytes → Option Bytes → Action Instance
unfolding update_ssh_statement
update_instance_ssh id owner_id ssh_user password_enc key_enc = do
  r ← try (update_ssh_statement id owner_id ssh_user password_enc key_enc)
  lift (as_not_found r)

-- `ssh_host_key_fingerprint IS NULL OR ssh_host_key_fingerprint = $1`
abbrev pub pinnable : String → Option String → Bool
pinnable fingerprint none = true
pinnable fingerprint (some old) = str_eq old fingerprint

-- No error tells that no row met the condition.
unfoldable pub update_instance_host_key_fingerprint : ℕ → String → Action (Unit {0})
update_instance_host_key_fingerprint instance_id fingerprint = do
  call
  modify_db (λ d. record d {
    instances =
        update
          (λ (i : Instance). i.id == instance_id && pinnable fingerprint i.ssh_host_key_fingerprint)
          (λ i. record i { ssh_host_key_fingerprint = some fingerprint }) d.instances;
  })

-- `event_instances` and `jobs` reference the instances, and forbid the deletion.
unfoldable pub delete_instance : ℕ → ℕ → Action (Unit {0})
delete_instance id owner_id = do
  call
  db ← get_db
  let referenced =
      exists (λ (r : ℕ × ℕ). r.1 == id) db.event_instances
      || exists (λ (j : Job). j.instance_id == id) db.jobs
  require (not (exists (owned_by id owner_id) db.instances && referenced)) foreign_key
  modify_db (λ d. record d { instances = delete (owned_by id owner_id) d.instances })
  require (exists (owned_by id owner_id) db.instances) instance_not_found
