-- ===== src/Crypto.antt =====
-- internal/crypto/secretbox.go: AES-256-GCM with the nonce in front. A Go string that holds a key
-- or a secret is its bytes. With a key of 32 bytes `aes.NewCipher` and `cipher.NewGCM` do not fail.
pub mod Hex
pub mod Password
pub mod RoundTrip
use otel_forge.Prelude.{ℕ, Option, none, some, ◌++◌, length, take, drop, ltb, ◌==◌, if◌then◌else◌}
use otel_forge.Models.{Bytes}
use otel_forge.Action.{
  Action, Result, ok, err, or_raise, lift, raise, pure, ◌>>=◌, get_env, call, key_length, key_hex,
  key_decoded, ciphertext_short, auth_failed,
}
use Hex.{decode}

abbrev decoded_key : Option Bytes → Result Bytes
decoded_key none = err key_hex
decoded_key (some b) = if length b == 32 then ok b else err key_decoded

unfoldable pub parse_key : Bytes → Result Bytes
parse_key key =
    if length key == 32
    then ok key
    else if length key == 64
    then decoded_key (decode key)
    else err key_length

-- `io.ReadFull` fills the nonce from the random bytes, or fails.
unfoldable pub encrypt : Bytes → Bytes → Action Bytes
encrypt plaintext key_str = do
  key ← lift (parse_key key_str)
  n ← call
  env ← get_env
  let nonce = take env.nonce_size (env.random n)
  pure (nonce ++ env.gcm_seal key nonce plaintext)

unfoldable pub decrypt : Bytes → Bytes → Action Bytes
decrypt ciphertext key_str = do
  key ← lift (parse_key key_str)
  env ← get_env
  if ltb (length ciphertext) env.nonce_size
      then raise ciphertext_short
      else lift (
          or_raise
            (env.gcm_open key (take env.nonce_size ciphertext) (drop env.nonce_size ciphertext))
            auth_failed)
