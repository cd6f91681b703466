-- ===== src/Handlers/BulkRow.antt =====
-- The registration in bulk: what one row stores.
use otel_forge.Prelude.{
  ℕ, ◌≤◌, ◌≡◌, ◌∙◌, refl, ap, inl, inr, String, Option, none, some, List, [], ◌∷◌, ◌++◌, is_empty,
  arith,
}
use otel_forge.Prelude.Text.{bytes}
use otel_forge.Prelude.Int.{ℤ}
use otel_forge.Prelude.Atoi.{atoi}
use otel_forge.Models.{Bytes, User, Instance}
use otel_forge.Action.{Env, World, Result, Error, ok, err, pure, raise, ◌>>=◌}
use otel_forge.Action.Rules.{>>=-eq-ok, >>=-eq-err}
use otel_forge.Crypto.{encrypt}
use otel_forge.Crypto.RoundTrip.{SealsAndOpens, decrypt-encrypt}
use otel_forge.Store.Instances.{create_instance}
use otel_forge.Runner.{ssh_config, lacks_credentials}
use otel_forge.Handlers.Instances.{InstanceDto, to_dto, or_default_port, bulk_row}
use otel_forge.Handlers.Sealing.{Reads, encrypt_some, decrypt_column_some, encrypt-OnlyReads}
use otel_forge.Handlers.Registration.{create_instance_ok}

create_instance_err :
    (owner_id : ℕ) (name host : String) (port : ℤ) (ssh_user : String)
    (pass_enc key_enc : Option Bytes) (env : Env) (w : World) {e : Error}
    → (create_instance owner_id name host port ssh_user pass_enc key_enc env w).0 ≡ err e
    → (create_instance owner_id name host port ssh_user pass_enc key_enc env w).1.db ≡ w.db
unfolding create_instance ◌>>=◌
create_instance_err owner_id name host port ssh_user pass_enc key_enc env w h = ground arith

module _ (key : Bytes) (user : User) (env : Env) where
  -- The row that is stored for a row of the table.
  pub record Stored (d : InstanceDto) (w w' : World) : Type 0 where
    pub row : Instance
    pub db_then : w'.db ≡ record w.db { instances = w.instances ++ row ∷ [] }
    pub owner_same : row.owner_id ≡ user.id
    pub shown : d ≡ to_dto "" row

  pub bulk_row_err :
      (row : List String) (w : World) {e : Error}
      → (bulk_row key user row env w).0 ≡ err e
      → (bulk_row key user row env w).1.db ≡ w.db
  unfolding bulk_row raise pure
  bulk_row_err [] w h = refl
  bulk_row_err (a ∷ []) w h = refl
  bulk_row_err (a ∷ b ∷ []) w h = refl
  bulk_row_err (a ∷ b ∷ c ∷ []) w h = refl
  bulk_row_err (a ∷ b ∷ c ∷ d ∷ []) w h = refl
  bulk_row_err (name ∷ host ∷ port ∷ ssh_user ∷ password ∷ row) w {e} h =
      let m = λ (enc : Bytes).
        create_instance user.id name host (or_default_port (atoi port)) ssh_user (some enc) none in
      let read = (encrypt-OnlyReads (bytes password) key).at env w in
      let u = (encrypt (bytes password) key env w).1 in
      elim (>>=-eq-err (encrypt (bytes password) key) (λ enc. m enc >>= λ i. pure (to_dto "" i)) env
        w h) [
          | inl (failed, same) ↦ rw same read.db_same
          | inr (enc, sealed, h1, same) ↦
              elim (>>=-eq-err (m enc) (λ i. pure (to_dto "" i)) env u h1) [
                | inl (failed, same2) ↦
                    rw (same, same2)
                      (create_instance_err user.id name host (or_default_port (atoi port)) ssh_user
                          (some enc) none env u failed
                        ∙ read.db_same)
                | inr (i, made, h2, same2) ↦ cc
              ]
        ]

  pub bulk_row_parts :
      (name host port ssh_user password : String) (rest : List String) (w : World) {d : InstanceDto}
      → (bulk_row key user (name ∷ host ∷ port ∷ ssh_user ∷ password ∷ rest) env w).0 ≡ ok d
      → (enc : Bytes) × ((encrypt (bytes password) key env w).0 ≡ ok enc)
        × (s : Stored d w
            (bulk_row key user (name ∷ host ∷ port ∷ ssh_user ∷ password ∷ rest) env w).1)
        × (s.row.ssh_password_enc ≡ some enc)
        × (s.row.ssh_private_key_enc ≡ none)
        × (s.row.port ≡ or_default_port (atoi port))
  unfolding bulk_row pure
  bulk_row_parts name host port ssh_user password rest w {d} h =
      let m = λ (enc : Bytes).
        create_instance user.id name host (or_default_port (atoi port)) ssh_user (some enc) none in
      let (enc, sealed, h1, e1) =
        >>=-eq-ok (encrypt (bytes password) key) (λ enc. m enc >>= λ i. pure (to_dto "" i)) env w
          h in
      let u = (encrypt (bytes password) key env w).1 in
      let (i, made, h2, e2) = >>=-eq-ok (m enc) (λ i. pure (to_dto "" i)) env u h1 in
      let read = (encrypt-OnlyReads (bytes password) key).at env w in
      let (u', row_is, _) =
        create_instance_ok user.id name host (or_default_port (atoi port)) ssh_user (some enc) none
          env u made in
      let at_end = ap (λ (o : Result InstanceDto × World). o.1) (e1 ∙ e2) ∙ u' in
      (
        enc,
        sealed,
        record {
          row = i;
          db_then = ap (λ (x : World). x.db) at_end ∙ rw read.db_same refl;
          owner_same = ap (λ (x : Instance). x.owner_id) row_is;
          shown = cc;
        },
        ap (λ (x : Instance). x.ssh_password_enc) row_is,
        ap (λ (x : Instance). x.ssh_private_key_enc) row_is,
        ap (λ (x : Instance). x.port) row_is,
      )

  pub bulk_row-Stored :
      (row : List String) (w : World) {d : InstanceDto}
      → (bulk_row key user row env w).0 ≡ ok d
      → Stored d w (bulk_row key user row env w).1
  bulk_row-Stored [] w h = unfold bulk_row raise in cc
  bulk_row-Stored (a ∷ []) w h = unfold bulk_row raise in cc
  bulk_row-Stored (a ∷ b ∷ []) w h = unfold bulk_row raise in cc
  bulk_row-Stored (a ∷ b ∷ c ∷ []) w h = unfold bulk_row raise in cc
  bulk_row-Stored (a ∷ b ∷ c ∷ d ∷ []) w h = unfold bulk_row raise in cc
  bulk_row-Stored (name ∷ host ∷ port ∷ ssh_user ∷ password ∷ rest) w h =
      (bulk_row_parts name host port ssh_user password rest w h).2

-- A row that is accepted is stored for the sender, with port 22 where its third field is no number
-- or 0; the worker reads back the row's password, and finds that it has no credentials exactly when
-- the password is empty, which is no error here.
pub bulk_row_registers :
    (env : Env)
    → SealsAndOpens env
    → 1 ≤ env.nonce_size
    → (key : Bytes) (user : User) (name host port ssh_user password : String) (w : World)
      (d : InstanceDto)
    → (bulk_row key user (name ∷ host ∷ port ∷ ssh_user ∷ password ∷ []) env w).0 ≡ ok d
    → (s : Stored key user env d w
        (bulk_row key user (name ∷ host ∷ port ∷ ssh_user ∷ password ∷ []) env w).1)
      × (s.row.port ≡ or_default_port (atoi port))
      × Reads env key s.row.ssh_password_enc (bytes password)
      × Reads env key s.row.ssh_private_key_enc []
      × (lacks_credentials (ssh_config s.row (bytes password) []) ≡ is_empty (bytes password))
unfolding otel_forge.Runner.decrypt_column lacks_credentials ssh_config
bulk_row_registers env laws some_nonce key user name host port ssh_user password w d h =
    let (enc, sealed, s, pass_is, key_is, port_is) =
      bulk_row_parts key user env name host port ssh_user password [] w h in
    let long = encrypt_some env laws some_nonce (bytes password) key w sealed in
    let opens = λ (u : World). decrypt-encrypt env laws (bytes password) key key w u refl sealed in
    (
      s,
      port_is,
      rw pass_is (decrypt_column_some env laws some_nonce enc key (bytes password) long opens),
      rw key_is (λ u. unfold pure in refl),
      ground arith,
    )
