-- ===== src/Handlers/Sealing.antt =====
-- The secrets of an instance: what is stored of them, and that the worker reads it back.
use otel_forge.Prelude.{
  ℕ, ◌≤◌, ◌≡◌, ◌∙◌, refl, subst, Option, none, some, [], ◌∷◌, length, length-append, take, arith,
}
use otel_forge.Models.{Bytes}
use otel_forge.Action.{Env, World, Action, Result, ok, err, pure, try, ◌>>=◌}
use otel_forge.Action.Rules.{Does, Does-try, >>=-eq-ok, try_ok}
use otel_forge.Crypto.{encrypt, decrypt}
use otel_forge.Crypto.RoundTrip.{
  SealsAndOpens, sealed_of, encrypt_inversion, decrypt-encrypt, length-take_le,
}
use otel_forge.Service.Checks.{OnlyReads, OnlyReads-Frame, reading}
use otel_forge.Runner.{decrypt_column}
use otel_forge.Handlers.Replies.{Reply, json}
use otel_forge.Handlers.Instances.{InstanceDto, encrypt_credential, or_reply, with_secrets}

-- The worker reads the secret in the column, at any time.
abbrev pub Reads : Env → Bytes → Option Bytes → Bytes → Type 0
Reads env key column secret = (u : World) → decrypt_column column key env u ≡ (ok secret, u)

module _ (env : Env) (laws : SealsAndOpens env) (some_nonce : 1 ≤ env.nonce_size) where
  pub encrypt_some :
      (plaintext key : Bytes) (w : World) {c : Bytes}
      → (encrypt plaintext key env w).0 ≡ ok c
      → 1 ≤ length c
  unfolding sealed_of
  encrypt_some plaintext key w {c} h =
      let (k, _, e) = encrypt_inversion plaintext key env w h in
      let nonce = take env.nonce_size (env.random w.calls) in
      let long = length-append nonce (env.gcm_seal k nonce plaintext) in
      let full = length-take_le env.nonce_size (env.random w.calls) (laws.filled w.calls) in
      rw e (omega (arith, long, full))

  pub decrypt_column_some :
      (c key secret : Bytes)
      → 1 ≤ length c
      → ((u : World) → decrypt c key env u ≡ (ok secret, u))
      → Reads env key (some c) secret
  unfolding decrypt_column
  decrypt_column_some [] key secret h d u = absurd (omega arith)
  decrypt_column_some (b ∷ bs) key secret h d u = d u

  encrypt_credential-Reads :
      (key secret : Bytes) (w : World) {column : Option Bytes}
      → (encrypt_credential key secret env w).0 ≡ ok column
      → Reads env key column secret
  unfolding encrypt_credential decrypt_column pure
  encrypt_credential-Reads key [] w {column} h =
      let e : none ≡ column = ground arith in subst (λ c. Reads env key c []) e (λ u. refl)
  encrypt_credential-Reads key (b ∷ bs) w {column} h =
      let (c, sealed, h1, _) = >>=-eq-ok (encrypt (b ∷ bs) key) (λ c. pure (some c)) env w h in
      let e : some c ≡ column = ground arith in
      subst (λ x. Reads env key x (b ∷ bs)) e
        (decrypt_column_some c key (b ∷ bs) (encrypt_some (b ∷ bs) key w sealed)
          (λ u. decrypt-encrypt env laws (b ∷ bs) key key w u refl sealed))

pub encrypt-OnlyReads : (plaintext key : Bytes) → Does OnlyReads (encrypt plaintext key)
unfolding encrypt
encrypt-OnlyReads plaintext key = search reading depth 12

pub encrypt_credential-OnlyReads :
    (key secret : Bytes) → Does OnlyReads (encrypt_credential key secret)
unfolding encrypt_credential
encrypt_credential-OnlyReads key [] = search reading
encrypt_credential-OnlyReads key (b ∷ bs) = search (reading, encrypt-OnlyReads) depth 9

pub or_reply_json :
    {A B : Type 0} (bad : ℕ) (r : Result A) (k : A → Action (Reply B)) (env : Env) (w : World)
    {n : ℕ} {b : B}
    → (or_reply bad r k env w).0 ≡ ok (json n b)
    → (a : A) × (r ≡ ok a) × ((k a env w).0 ≡ ok (json n b)) × (or_reply bad r k env w ≡ k a env w)
unfolding or_reply pure
or_reply_json bad (ok a) k env w h = (a, refl, h, refl)
or_reply_json bad (err e) k env w h = cc

-- The two columns, and the world in which they are handed on.
pub record Sealed (env : Env) (key password private_key : Bytes) (w : World)
    (pass_enc key_enc : Option Bytes) (u : World) : Type 0 where
  pub password_reads : Reads env key pass_enc password
  pub key_reads : Reads env key key_enc private_key
  pub read_only : OnlyReads w u

pub with_secrets_json :
    (env : Env)
    → SealsAndOpens env
    → 1 ≤ env.nonce_size
    → (key password private_key : Bytes)
      (k : Option Bytes → Option Bytes → Action (Reply InstanceDto)) (w : World) {n : ℕ}
      {d : InstanceDto}
    → (with_secrets key password private_key k env w).0 ≡ ok (json n d)
    → (pass_enc : Option Bytes) × (key_enc : Option Bytes) × (u : World) × Sealed env key password
        private_key w pass_enc key_enc u
      × (with_secrets key password private_key k env w ≡ k pass_enc key_enc env u)
unfolding with_secrets
with_secrets_json env laws some_nonce key password private_key k w h =
    let second = λ (pass_enc : Option Bytes). try (encrypt_credential key private_key) >>= λ r'.
    or_reply 500 r' (λ key_enc. k pass_enc key_enc) in
    let (r, tried, h1, e1) =
      >>=-eq-ok (try (encrypt_credential key password)) (λ r. or_reply 500 r second) env w h in
    let u = (try (encrypt_credential key password) env w).1 in
    let (pass_enc, known, h2, e2) = or_reply_json 500 r second env u h1 in
    let (r', tried', h3, e3) =
      >>=-eq-ok (try (encrypt_credential key private_key))
        (λ r'. or_reply 500 r' (λ key_enc. k pass_enc key_enc)) env u h2 in
    let v = (try (encrypt_credential key private_key) env u).1 in
    let (key_enc, known', h4, e4) = or_reply_json 500 r' (λ key_enc. k pass_enc key_enc) env v h3 in
    let first_ok : (encrypt_credential key password env w).0 ≡ ok pass_enc =
      try_ok _ env w tried ∙ known in
    let second_ok : (encrypt_credential key private_key env u).0 ≡ ok key_enc =
      try_ok _ env u tried' ∙ known' in
    (
      pass_enc,
      key_enc,
      v,
      record {
        password_reads = encrypt_credential-Reads env laws some_nonce key password w first_ok;
        key_reads = encrypt_credential-Reads env laws some_nonce key private_key u second_ok;
        read_only =
            OnlyReads-Frame.then_ w u v
              ((Does-try _ (encrypt_credential-OnlyReads key password)).at env w)
              ((Does-try _ (encrypt_credential-OnlyReads key private_key)).at env u);
      },
      e1 ∙ e2 ∙ e3 ∙ e4,
    )
