-- ===== src/Crypto/RoundTrip.antt =====
-- What `Encrypt` writes `Decrypt` reads, under a key in either spelling.
use otel_forge.Prelude.{
  ℕ, ◌≤◌, ◌<◌, ◌≡◌, ◌∙◌, refl, ap, false, some, [], ◌∷◌, ◌++◌, zero, suc, length, take, drop,
  take-append_length, drop-append_length, length-append, ltb, All, arith,
}
use otel_forge.Models.{Bytes}
use otel_forge.Action.{Env, World, ok, ◌>>=◌}
use otel_forge.Crypto.{parse_key, encrypt, decrypt}
use otel_forge.Crypto.Hex.{encode, decode-encode, length-encode}

-- The documented behaviour of AES-GCM and of `io.ReadFull`: what was sealed opens under the same
-- key and nonce, and the nonce is filled.
pub record SealsAndOpens (env : Env) : Type 0 where
  pub opens :
      (key nonce plaintext : Bytes)
      → length key ≡ 32
      → length nonce ≡ env.nonce_size
      → env.gcm_open key nonce (env.gcm_seal key nonce plaintext) ≡ some plaintext
  pub filled : (n : ℕ) → env.nonce_size ≤ length (env.random n)

pub length-take_le : (n : ℕ) (xs : Bytes) → n ≤ length xs → length (take n xs) ≡ n
length-take_le zero xs h = refl
length-take_le (suc n) [] h = absurd (omega arith)
length-take_le (suc n) (x ∷ xs) h = ap suc (length-take_le n xs (omega arith))

-- A key that is accepted has 32 bytes.
parse_key-length : (s k : Bytes) → parse_key s ≡ ok k → length k ≡ 32
unfolding parse_key
parse_key-length s k h = ground arith

-- The 64 hexadecimal digits of 32 bytes are the same key as the bytes.
pub parse_key-encode :
    (b : Bytes) → length b ≡ 32 → All (λ x. x < 256) b → parse_key (encode b) ≡ parse_key b
unfolding parse_key
parse_key-encode b len bytes = ground (arith, length-encode b, decode-encode b bytes)

open_sealed :
    (env : Env)
    → SealsAndOpens env
    → (k plaintext nonce : Bytes) → length k ≡ 32
    → length nonce ≡ env.nonce_size
    → let c = nonce ++ env.gcm_seal k nonce plaintext in
      (ltb (length c) env.nonce_size ≡ false)
      × (env.gcm_open k (take env.nonce_size c) (drop env.nonce_size c) ≡ some plaintext)
open_sealed env laws k plaintext nonce lk ln =
    let sealed = env.gcm_seal k nonce plaintext in
    let long = length-append nonce sealed in
    (
      ground (arith, long),
      rw (← ln, take-append_length nonce sealed, drop-append_length nonce sealed)
          (laws.opens k nonce plaintext lk ln),
    )

unfoldable pub sealed_of : Env → World → Bytes → Bytes → Bytes
sealed_of env w k plaintext =
    let nonce = take env.nonce_size (env.random w.calls) in nonce ++ env.gcm_seal k nonce plaintext

pub encrypt_inversion :
    (plaintext s : Bytes) (env : Env) (w : World) {c : Bytes}
    → (encrypt plaintext s env w).0 ≡ ok c
    → (k : Bytes) × (parse_key s ≡ ok k) × (c ≡ sealed_of env w k plaintext)
unfolding encrypt sealed_of ◌>>=◌
encrypt_inversion plaintext s env w h = ground arith

decrypt_known :
    (c s k p : Bytes) (env : Env) (u : World)
    → parse_key s ≡ ok k
    → ltb (length c) env.nonce_size ≡ false
    → env.gcm_open k (take env.nonce_size c) (drop env.nonce_size c) ≡ some p
    → decrypt c s env u ≡ (ok p, u)
unfolding decrypt ◌>>=◌
decrypt_known c s k p env u ek long opened = rw (ek, long, opened)

-- Where AES-GCM opens what it sealed and the random bytes fill the nonce, `Decrypt` gives back
-- the plaintext that `Encrypt` was given, at any later time and under any spelling of the key that
-- `parseKey` reads as the same bytes.
pub decrypt-encrypt :
    (env : Env)
    → SealsAndOpens env
    → (plaintext s s' : Bytes) (w u : World) {c : Bytes} → parse_key s' ≡ parse_key s
    → (encrypt plaintext s env w).0 ≡ ok c
    → decrypt c s' env u ≡ (ok plaintext, u)
unfolding sealed_of
decrypt-encrypt env laws plaintext s s' w u {c} same h =
    let (k, parsed, e) = encrypt_inversion plaintext s env w h in
    let nonce = take env.nonce_size (env.random w.calls) in
    let (long, opened) =
      open_sealed env laws k plaintext nonce (parse_key-length s k parsed)
        (length-take_le env.nonce_size (env.random w.calls) (laws.filled w.calls)) in
    rw e (decrypt_known _ s' k plaintext env u (same ∙ parsed) long opened)
