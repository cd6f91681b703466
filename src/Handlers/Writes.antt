-- ===== src/Handlers/Writes.antt =====
-- What the handlers of instances do to the world, by what the statements do to it.
use otel_forge.Prelude.{ℕ, String, ◌&&◌, Option, none, some, List, [], ◌∷◌, is_empty, is_blank}
use otel_forge.Prelude.Int.{ℤ}
use otel_forge.Models.{Bytes, User}
use otel_forge.Action.{World, Action, Result, ok, err}
use otel_forge.Action.Rules.{Frame, Does, Does-if, does_rules}
use otel_forge.Crypto.{encrypt}
use otel_forge.Store.Instances.{create_instance, update_instance_ssh, delete_instance}
use otel_forge.Handlers.Replies.{Reply}
use otel_forge.Handlers.Instances.{
  InstanceDto, CreateInstanceRequest, UpdateInstanceRequest, encrypt_credential, or_reply,
  with_secrets, register, create, replace, update, delete, bulk_row, bulk_rows, bulk_table,
  bulk_create,
}

-- The three statements that write instances, for one owner.
pub record Writes (R : World → World → Type 0) (owner_id : ℕ) : Type 0 where
  pub creates :
      (name host : String) (port : ℤ) (ssh_user : String) (pass_enc key_enc : Option Bytes)
      → Does R (create_instance owner_id name host port ssh_user pass_enc key_enc)
  pub updates :
      (id : ℕ) (ssh_user : String) (pass_enc key_enc : Option Bytes)
      → Does R (update_instance_ssh id owner_id ssh_user pass_enc key_enc)
  pub deletes : (id : ℕ) → Does R (delete_instance id owner_id)

module _ {R : World → World → Type 0} (frame : Frame R) where
  encrypt-Does : (plaintext key : Bytes) → Does R (encrypt plaintext key)
  unfolding encrypt
  encrypt-Does plaintext key = search does_rules depth 12

  encrypt_credential-Does : (key secret : Bytes) → Does R (encrypt_credential key secret)
  unfolding encrypt_credential
  encrypt_credential-Does key [] = search does_rules
  encrypt_credential-Does key (b ∷ bs) = search (does_rules, encrypt-Does) depth 9

  or_reply-Does :
      {A B : Type 0} (bad : ℕ) (r : Result A) (k : A → Action (Reply B))
      → ((a : A) → Does R (k a))
      → Does R (or_reply bad r k)
  unfolding or_reply
  or_reply-Does bad (ok a) k d = d a
  or_reply-Does bad (err e) k d = search does_rules

  with_secrets-Does :
      (key password private_key : Bytes)
      (k : Option Bytes → Option Bytes → Action (Reply InstanceDto))
      → ((p q : Option Bytes) → Does R (k p q))
      → Does R (with_secrets key password private_key k)
  unfolding with_secrets
  with_secrets-Does key password private_key k d =
      search (does_rules, encrypt_credential-Does, or_reply-Does) depth 20

module _ {R : World → World → Type 0} (user : User) (key : Bytes) (frame : Frame R)
    (writes : Writes R user.id) where
  register-Does :
      (req : CreateInstanceRequest) (p q : Option Bytes) → Does R (register user req p q)
  unfolding register
  register-Does req p q = let creates = writes.creates in search does_rules depth 9

  replace-Does :
      (id : ℕ) (req : UpdateInstanceRequest) (p q : Option Bytes) → Does R (replace user id req p q)
  unfolding replace
  replace-Does id req p q = let updates = writes.updates in search does_rules depth 9

  pub create-Does : (req : Option CreateInstanceRequest) → Does R (create key user req)
  unfolding create
  create-Does none = search does_rules
  create-Does (some req) =
      Does-if (is_empty req.password && is_empty req.private_key) _ _ (search does_rules) (
        with_secrets-Does frame key req.password req.private_key (register user req)
          (register-Does req))

  pub update-Does : (id : ℕ) (req : Option UpdateInstanceRequest) → Does R (update key user id req)
  unfolding update
  update-Does id none = search does_rules
  update-Does id (some req) = Does-if (is_blank req.ssh_user) _ _ (search does_rules) (
      Does-if (is_empty req.password && is_empty req.private_key) _ _ (search does_rules) (
        with_secrets-Does frame key req.password req.private_key (replace user id req)
          (replace-Does id req)))

  pub delete-Does : (id : ℕ) → Does R (delete user id)
  unfolding delete
  delete-Does id = let deletes = writes.deletes in search does_rules depth 9

  bulk_row-Does : (row : List String) → Does R (bulk_row key user row)
  unfolding bulk_row
  bulk_row-Does [] = search does_rules
  bulk_row-Does (a ∷ []) = search does_rules
  bulk_row-Does (a ∷ b ∷ []) = search does_rules
  bulk_row-Does (a ∷ b ∷ c ∷ []) = search does_rules
  bulk_row-Does (a ∷ b ∷ c ∷ d ∷ []) = search does_rules
  bulk_row-Does (a ∷ b ∷ c ∷ d ∷ e ∷ row) =
      let creates = writes.creates in search (does_rules, encrypt-Does) depth 9

  bulk_rows-Does : (rows : List (List String)) → Does R (bulk_rows key user rows)
  unfolding bulk_rows
  bulk_rows-Does [] = search does_rules
  bulk_rows-Does (row ∷ rows) =
      let rest = bulk_rows-Does rows in search (does_rules, bulk_row-Does) depth 9

  bulk_table-Does : (table : Option (List (List String))) → Does R (bulk_table key user table)
  unfolding bulk_table
  bulk_table-Does none = search does_rules
  bulk_table-Does (some []) = search does_rules
  bulk_table-Does (some (header ∷ [])) = search does_rules
  bulk_table-Does (some (header ∷ row ∷ rows)) = search (does_rules, bulk_rows-Does) depth 9

  pub bulk_create-Does : (csv : Option String) → Does R (bulk_create key user csv)
  unfolding bulk_create
  bulk_create-Does none = search does_rules
  bulk_create-Does (some csv) = search (does_rules, bulk_table-Does) depth 9
