-- ===== src/Crypto/Hex.antt =====
-- `hex.DecodeString` on bytes, and its inverse.
use otel_forge.Prelude.{
  ℕ, ◌+◌, ◌-◌, ◌*◌, ◌/◌, ◌%◌, ◌<◌, ◌≡◌, refl, Option, none, some, [], ◌∷◌, ◌&&◌, leb, ltb,
  if◌then◌else◌, All, arith, length,
}
use otel_forge.Models.{Bytes}

-- The value of a digit 0-9, a-f or A-F.
unfoldable pub hex_value : ℕ → Option ℕ
hex_value c =
    if leb b'0' c && leb c b'9'
    then some (c - b'0')
    else if leb b'a' c && leb c b'f'
    then some (c - b'a' + 10)
    else if leb b'A' c && leb c b'F'
    then some (c - b'A' + 10)
    else none

abbrev pair_value : Option ℕ → Option ℕ → Option Bytes → Option Bytes
pair_value (some h) (some l) (some rest) = some ((h * 16 + l) ∷ rest)
pair_value _ _ _ = none

unfoldable pub decode : Bytes → Option Bytes
decode [] = some []
decode (c ∷ []) = none
decode (c ∷ d ∷ rest) = pair_value (hex_value c) (hex_value d) (decode rest)

hex_digit : ℕ → ℕ
hex_digit n = if ltb n 10 then n + b'0' else n - 10 + b'a'

-- `hex.EncodeToString`
unfoldable pub encode : Bytes → Bytes
unfolding hex_digit
encode [] = []
encode (b ∷ rest) = hex_digit (b / 16) ∷ hex_digit (b % 16) ∷ encode rest

hex_value-hex_digit : (n : ℕ) → n < 16 → hex_value (hex_digit n) ≡ some n
unfolding hex_value hex_digit
hex_value-hex_digit n h = ground arith

pub decode-encode : (b : Bytes) → All (λ x. x < 256) b → decode (encode b) ≡ some b
unfolding decode encode
decode-encode [] h = refl
decode-encode (x ∷ xs) h =
    ground (arith, hex_value-hex_digit (x / 16), hex_value-hex_digit (x % 16), decode-encode xs h.1)

pub length-encode : (b : Bytes) → length (encode b) ≡ 2 * length b
unfolding encode
length-encode [] = omega arith
length-encode (x ∷ xs) = omega (arith, length-encode xs)
