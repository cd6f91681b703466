-- ===== src/Handlers/Registration.antt =====
-- What the registration of an instance stores.
use otel_forge.Prelude.{
  ℕ, ◌+◌, ◌≤◌, ◌≡◌, ◌∙◌, refl, sym, ap, subst, inl, inr, false, ◌&&◌, Option, none, some, [], ◌∷◌,
  ◌++◌, is_empty, exists, String, arith, Bool-cases,
}
use otel_forge.Prelude.Int.{ℤ}
use otel_forge.Models.{Bytes, User, Instance}
use otel_forge.Action.{Env, World, Db, Result, ok, err, pure, try, ◌>>=◌}
use otel_forge.Action.Rules.{>>=-eq-ok, try_ok}
use otel_forge.Crypto.RoundTrip.{SealsAndOpens}
use otel_forge.Store.Instances.{has_id, create_instance}
use otel_forge.Runner.{ssh_config, lacks_credentials}
use otel_forge.Handlers.Replies.{Reply, json, text}
use otel_forge.Handlers.Instances.{
  InstanceDto, to_dto, CreateInstanceRequest, or_default_port, dto_reply, with_secrets, register,
  create,
}
use otel_forge.Handlers.Sealing.{Reads, Sealed, with_secrets_json}

pub create_instance_ok :
    (owner_id : ℕ) (name host : String) (port : ℤ) (ssh_user : String)
    (pass_enc key_enc : Option Bytes) (env : Env) (w : World) {i : Instance}
    → (create_instance owner_id name host port ssh_user pass_enc key_enc env w).0 ≡ ok i
    → let w' = (create_instance owner_id name host port ssh_user pass_enc key_enc env w).1 in
      (w'
        ≡ record w { db = record w.db { instances = w.instances ++ i ∷ [] }; calls = w.calls + 1 })
      × (i ≡ record {
        id = i.id;
        owner_id = owner_id;
        name = name;
        host = host;
        port = port;
        ssh_user = ssh_user;
        ssh_password_enc = pass_enc;
        ssh_private_key_enc = key_enc;
        ssh_host_key_fingerprint = none;
        created_at = i.created_at;
      })
      × (exists (has_id i.id) w.instances ≡ false)
unfolding create_instance ◌>>=◌
create_instance_ok owner_id name host port ssh_user pass_enc key_enc env w h = ground arith

-- What an accepted registration has done.
pub record Registered (env : Env) (key : Bytes) (user : User) (req : CreateInstanceRequest)
    (w w' : World) : Type 0 where
  pub row : Instance
  pub db_then : w'.db ≡ record w.db { instances = w.instances ++ row ∷ [] }
  pub ready_same : w'.ready ≡ w.ready
  pub id_unused : exists (has_id row.id) w.instances ≡ false
  pub owner_same : row.owner_id ≡ user.id
  pub port_same : row.port ≡ or_default_port req.port
  pub unpinned : row.ssh_host_key_fingerprint ≡ none
  pub password_reads : Reads env key row.ssh_password_enc req.password
  pub key_reads : Reads env key row.ssh_private_key_enc req.private_key
  pub usable : lacks_credentials (ssh_config row req.password req.private_key) ≡ false

usable_lem :
    (i : Instance) (password private_key : Bytes)
    → is_empty password && is_empty private_key ≡ false
    → lacks_credentials (ssh_config i password private_key) ≡ false
unfolding lacks_credentials ssh_config
usable_lem i password private_key h = h

dto_reply_json :
    (good bad : ℕ) (r : Result Instance) {n : ℕ} {d : InstanceDto}
    → dto_reply good bad r ≡ json n d
    → (i : Instance) × (r ≡ ok i) × (n ≡ good) × (d ≡ to_dto "" i)
dto_reply_json good bad (ok i) h = (i, refl, cc, cc)
dto_reply_json good bad (err e) h = cc

register_json :
    (user : User) (req : CreateInstanceRequest) (pass_enc key_enc : Option Bytes) (env : Env)
    (w : World) {n : ℕ} {d : InstanceDto}
    → (register user req pass_enc key_enc env w).0 ≡ ok (json n d)
    → let m =
        create_instance user.id req.name req.host
          (or_default_port req.port)
          req.ssh_user
          pass_enc
          key_enc in
      (i : Instance) × ((m env w).0 ≡ ok i)
      × (n ≡ 201)
      × (d ≡ to_dto "" i)
      × ((register user req pass_enc key_enc env w).1 ≡ (m env w).1)
unfolding register pure
register_json user req pass_enc key_enc env w {n} {d} h =
    let m =
      create_instance user.id req.name req.host (or_default_port req.port) req.ssh_user pass_enc
        key_enc in
    let (r, tried, h1, e1) = >>=-eq-ok (try m) (λ r. pure (dto_reply 201 500 r)) env w h in
    let replied : dto_reply 201 500 r ≡ json n d = ground arith in
    let (i, made, code, shown) = dto_reply_json 201 500 r replied in
    (
      i,
      try_ok m env w tried ∙ made,
      code,
      shown,
      ap (λ (o : Result (Reply InstanceDto) × World). o.1) e1 ∙ (unfold try in refl),
    )

-- The insertion of the row, once the secrets are sealed.
Registered_lem :
    (env : Env) (key : Bytes) (user : User) (req : CreateInstanceRequest) (w u : World)
    (pass_enc key_enc : Option Bytes) {i : Instance}
    → is_empty req.password && is_empty req.private_key ≡ false
    → Sealed env key req.password req.private_key w pass_enc key_enc u
    → let m =
        create_instance user.id req.name req.host
          (or_default_port req.port)
          req.ssh_user
          pass_enc
          key_enc in
      (m env u).0 ≡ ok i → Registered env key user req w (m env u).1
Registered_lem env key user req w u pass_enc key_enc {i} given s made =
    let (u', row_is, unused) =
      create_instance_ok user.id req.name req.host (or_default_port req.port) req.ssh_user pass_enc
        key_enc env u made in
    subst (λ x. Registered env key user req w x) (sym u')
      (record {
        row = i;
        db_then = rw s.read_only.db_same refl;
        ready_same = s.read_only.ready_same;
        id_unused =
            subst (λ (x : Db). exists (has_id i.id) x.instances ≡ false) s.read_only.db_same unused;
        owner_same = ap (λ (x : Instance). x.owner_id) row_is;
        port_same = ap (λ (x : Instance). x.port) row_is;
        unpinned = ap (λ (x : Instance). x.ssh_host_key_fingerprint) row_is;
        password_reads =
            subst (λ c. Reads env key c req.password)
              (sym (ap (λ (x : Instance). x.ssh_password_enc) row_is)) s.password_reads;
        key_reads =
            subst (λ c. Reads env key c req.private_key)
              (sym (ap (λ (x : Instance). x.ssh_private_key_enc) row_is)) s.key_reads;
        usable = usable_lem i req.password req.private_key given;
      })

-- When an instance is registered, with status 201, there is one more row and nothing else has
-- changed; the row has an unused identifier, belongs to the sender, is not pinned, and has port 22
-- if the request gives 0; the worker, with the same key, reads from its columns the password and
-- the private key of the request, and finds that it has credentials. This is where AES-GCM opens
-- what it sealed and has nonces of at least one byte, which the random bytes fill.
pub create_registers :
    (env : Env)
    → SealsAndOpens env
    → 1 ≤ env.nonce_size
    → (key : Bytes) (user : User) (req : CreateInstanceRequest) (w : World) (n : ℕ)
      (d : InstanceDto)
    → (create key user (some req) env w).0 ≡ ok (json n d)
    → (n ≡ 201) × Registered env key user req w (create key user (some req) env w).1
unfolding create
create_registers env laws some_nonce key user req w n d h =
    elim (Bool-cases (is_empty req.password && is_empty req.private_key)) [
      | inl missing ↦
          let answered : (create key user (some req) env w).0
              ≡ ok (text 400 "password or privateKey required") =
            rw missing (unfold pure in refl) in
          cc
      | inr given ↦
          let on : create key user (some req) env w
              ≡ with_secrets key req.password req.private_key (register user req) env w =
            rw given refl in
          let (pass_enc, key_enc, u, s, e1) =
            with_secrets_json env laws some_nonce key req.password req.private_key
              (register user req) w
              (ap (λ (o : Result (Reply InstanceDto) × World). o.0) (sym on) ∙ h) in
          let registering : (register user req pass_enc key_enc env u).0 ≡ ok (json n d) =
            ap (λ (o : Result (Reply InstanceDto) × World). o.0) (sym (on ∙ e1)) ∙ h in
          let (i, made, code, shown, e2) =
            register_json user req pass_enc key_enc env u registering in
          (
            code,
            subst (λ x. Registered env key user req w x)
                (sym (ap (λ (o : Result (Reply InstanceDto) × World). o.1) (on ∙ e1) ∙ e2))
                (Registered_lem env key user req w u pass_enc key_enc given s made),
          )
    ]
