-- ===== src/Handlers/Instances.antt =====
-- api/internal/handlers/instances.go. `key` is the handler's encryption key. Secrets are bytes.
use otel_forge.Prelude.{
  ℕ, String, true, ◌&&◌, Option, none, some, List, [], ◌∷◌, map, length, is_empty, is_blank,
  if◌then◌else◌,
}
use otel_forge.Prelude.Text.{bytes}
use otel_forge.Prelude.Int.{ℤ, pos, eq_ℤ}
use otel_forge.Prelude.Atoi.{atoi}
use otel_forge.Models.{Bytes, is_admin, User, Instance, InstanceListing}
use otel_forge.Action.{
  Action, Result, ok, err, message, pure, raise, try, get_env, row_too_short, ◌>>=◌,
}
use otel_forge.Crypto.{encrypt}
use otel_forge.Store.Instances.{
  create_instance, list_instances, update_instance_ssh, delete_instance,
}
use otel_forge.Handlers.Replies.{Reply, json, text, status}

-- The format of `created_at` is left out.
pub record InstanceDto : Type 0 where
  pub id : ℕ
  pub owner_id : ℕ
  pub owner_email : String
  pub name : String
  pub host : String
  pub port : ℤ
  pub ssh_user : String
  pub created_at : ℕ

abbrev pub to_dto : String → Instance → InstanceDto
to_dto owner_email i = record {
  id = i.id;
  owner_id = i.owner_id;
  owner_email = owner_email;
  name = i.name;
  host = i.host;
  port = i.port;
  ssh_user = i.ssh_user;
  created_at = i.created_at;
}

abbrev pub listing_dto : InstanceListing → InstanceDto
listing_dto l = to_dto l.owner_email l.instance_row

abbrev dtos : Result (List InstanceListing) → Reply (List InstanceDto)
dtos (ok list) = json 200 (map listing_dto list)
dtos (err e) = text 500 (message e)

unfoldable pub list : User → Action (Reply (List InstanceDto))
list user = do r ← try (list_instances user.id (is_admin user.role)); pure (dtos r)

-- `AdminHandler.ListInstances`: the owner is "", which the query does not read.
unfoldable pub admin_list : Action (Reply (List InstanceDto))
admin_list = do r ← try (list_instances 0 true); pure (dtos r)

pub record CreateInstanceRequest : Type 0 where
  pub name : String
  pub host : String
  pub port : ℤ
  pub ssh_user : String
  pub password : Bytes
  pub private_key : Bytes

-- A secret that is not given is stored as NULL.
unfoldable pub encrypt_credential : Bytes → Bytes → Action (Option Bytes)
encrypt_credential key [] = pure none
encrypt_credential key (b ∷ bs) = do c ← encrypt (b ∷ bs) key; pure (some c)

abbrev pub or_default_port : ℤ → ℤ
or_default_port port = if eq_ℤ port (pos 0) then pos 22 else port

-- `if err != nil { return writeError(…) }` before more is done
unfoldable pub or_reply : {A B : Type 0} → ℕ → Result A → (A → Action (Reply B)) → Action (Reply B)
or_reply bad (ok a) k = k a
or_reply bad (err e) k = pure (text bad (message e))

abbrev pub dto_reply : ℕ → ℕ → Result Instance → Reply InstanceDto
dto_reply good bad (ok i) = json good (to_dto "" i)
dto_reply good bad (err e) = text bad (message e)

-- The two secrets, encrypted, and what is done with them.
unfoldable pub with_secrets :
    Bytes
    → Bytes
    → Bytes
    → (Option Bytes → Option Bytes → Action (Reply InstanceDto))
    → Action (Reply InstanceDto)
with_secrets key password private_key k = do
  r ← try (encrypt_credential key password)
  or_reply 500 r (λ pass_enc. (do
    r' ← try (encrypt_credential key private_key)
    or_reply 500 r' (λ key_enc. k pass_enc key_enc)))

unfoldable pub register :
    User → CreateInstanceRequest → Option Bytes → Option Bytes → Action (Reply InstanceDto)
register user req pass_enc key_enc = do
  r ← try (
      create_instance user.id req.name req.host (or_default_port req.port) req.ssh_user pass_enc
        key_enc)
  pure (dto_reply 201 500 r)

unfoldable pub create : Bytes → User → Option CreateInstanceRequest → Action (Reply InstanceDto)
create key user none = pure (text 400 "invalid json")
create key user (some req) =
    if is_empty req.password && is_empty req.private_key
    then pure (text 400 "password or privateKey required")
    else with_secrets key req.password req.private_key (register user req)

pub record UpdateInstanceRequest : Type 0 where
  pub ssh_user : String
  pub password : Bytes
  pub private_key : Bytes

unfoldable pub replace :
    User → ℕ → UpdateInstanceRequest → Option Bytes → Option Bytes → Action (Reply InstanceDto)
replace user id req pass_enc key_enc = do
  r ← try (update_instance_ssh id user.id req.ssh_user pass_enc key_enc)
  pure (dto_reply 200 404 r)

unfoldable pub update : Bytes → User → ℕ → Option UpdateInstanceRequest → Action (Reply InstanceDto)
update key user id none = pure (text 400 "invalid json")
update key user id (some req) =
    if is_blank req.ssh_user
    then pure (text 400 "sshUser required")
    else if is_empty req.password && is_empty req.private_key
    then pure (text 400 "password or privateKey required")
    else with_secrets key req.password req.private_key (replace user id req)

-- What the body of the loop does with a row: the name, the host, the port, the user, the password.
unfoldable pub bulk_row : Bytes → User → List String → Action InstanceDto
bulk_row key user (name ∷ host ∷ port ∷ ssh_user ∷ password ∷ _) = do
  enc ← encrypt (bytes password) key
  inst ← create_instance user.id name host (or_default_port (atoi port)) ssh_user (some enc) none
  pure (to_dto "" inst)
bulk_row key user _ = raise row_too_short

pub record BulkResult : Type 0 where
  pub created : ℕ
  pub instances : List InstanceDto
  pub errors : List String

-- `created` and `errs`
abbrev pub collect :
    Result InstanceDto → List InstanceDto × List String → List InstanceDto × List String
collect (ok dto) (created, errs) = (dto ∷ created, errs)
collect (err e) (created, errs) = (created, message e ∷ errs)

-- The loop: an error of one row does not stop it.
unfoldable pub bulk_rows :
    Bytes → User → List (List String) → Action (List InstanceDto × List String)
bulk_rows key user [] = pure ([], [])
bulk_rows key user (row ∷ rows) = do
  r ← try (bulk_row key user row)
  rest ← bulk_rows key user rows
  pure (collect r rest)

abbrev pub bulk_result : List InstanceDto × List String → BulkResult
bulk_result (created, errs) = record {
  created = length created;
  instances = created;
  errors = errs;
}

-- The first row holds the names of the columns.
unfoldable pub bulk_table : Bytes → User → Option (List (List String)) → Action (Reply BulkResult)
bulk_table key user (some (header ∷ row ∷ rows)) = do
  out ← bulk_rows key user (row ∷ rows)
  pure (json 200 (bulk_result out))
bulk_table key user _ = pure (text 400 "invalid csv")

unfoldable pub bulk_create : Bytes → User → Option String → Action (Reply BulkResult)
bulk_create key user none = pure (text 400 "invalid json")
bulk_create key user (some csv) = do env ← get_env; bulk_table key user (env.read_csv csv)

abbrev deleted : Result (Unit {0}) → Reply (Unit {0})
deleted (ok _) = status 204
deleted (err e) = text 404 (message e)

unfoldable pub delete : User → ℕ → Action (Reply (Unit {0}))
delete user id = do r ← try (delete_instance id user.id); pure (deleted r)
