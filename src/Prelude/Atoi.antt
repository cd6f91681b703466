-- ===== src/Prelude/Atoi.antt =====
-- `strconv.Atoi` on a 64-bit machine. An `int` is its value, from -2 ^ 63 to 2 ^ 63 - 1.
use Prim.Native.Nat.{ℕ, ◌+◌, ◌-◌, ◌*◌, ◌/◌, ◌^◌, ◌<◌}
use Prim.Native.String.{String}
use mathlib.Core.Path.{◌≡◌, refl}
use mathlib.Core.Bool.{Bool, ◌&&◌}
use mathlib.Core.List.{List, [], ◌∷◌}
use native.Mathlib.Omega.{arith}
use mathlib.Core.Logic.{inl, inr}
use otel_forge.Prelude.Tests.{Bool-cases, ltb, leb, ◌==◌, if◌then◌else◌}
use otel_forge.Prelude.Text.{codes}
use otel_forge.Prelude.Int.{ℤ, pos, negsuc}

-- What `ParseUint` makes of the digits: a number, a number past 64 bits, or no number.
pub data Digits : Type 0 where
  value : ℕ → Digits
  too_large no_number : Digits

abbrev is_digit : ℕ → Bool
is_digit c = leb b'0' c && leb c b'9'

-- `cutoff`, the least number that times ten is past 64 bits.
abbrev cutoff : ℕ
cutoff = (2 ^ 64 - 1) / 10 + 1

-- The loop of `ParseUint`: it stops at the first character that is no digit, and at the first
-- number past 64 bits.
unfoldable pub parse_digits : ℕ → List ℕ → Digits
parse_digits n [] = value n
parse_digits n (c ∷ cs) =
    if is_digit c
    then (if leb cutoff n
        then too_large
        else if ltb (2 ^ 64 - 1) (n * 10 + (c - b'0'))
        then too_large
        else parse_digits (n * 10 + (c - b'0')) cs)
    else no_number

abbrev parse_uint : List ℕ → Digits
parse_uint [] = no_number
parse_uint (c ∷ cs) = parse_digits 0 (c ∷ cs)

-- `ParseInt` behind a sign; a number out of range becomes the nearest `int`, others give 0.
abbrev positive : Digits → ℤ
positive (value n) = if ltb n (2 ^ 63) then pos n else pos (2 ^ 63 - 1)
positive too_large = pos (2 ^ 63 - 1)
positive no_number = pos 0

abbrev negative : Digits → ℤ
negative (value n) =
    if n == 0 then pos 0 else if ltb (2 ^ 63) n then negsuc (2 ^ 63 - 1) else negsuc (n - 1)
negative too_large = negsuc (2 ^ 63 - 1)
negative no_number = pos 0

-- The number that `Atoi` returns, beside an error or not.
unfoldable pub atoi_codes : List ℕ → ℤ
atoi_codes [] = pos 0
atoi_codes (c ∷ cs) =
    if c == b'+'
    then positive (parse_uint cs)
    else if c == b'-'
    then negative (parse_uint cs)
    else positive (parse_uint (c ∷ cs))

unfoldable pub atoi : String → ℤ
atoi s = atoi_codes (codes s)

atoi_20 : atoi "-0020" ≡ negsuc 19
unfolding atoi atoi_codes parse_digits
atoi_20 = refl

atoi_large : atoi "99999999999999999999x" ≡ pos (2 ^ 63 - 1)
unfolding atoi atoi_codes parse_digits
atoi_large = refl

-- A value that an `int` of 64 bits holds.
abbrev pub IsInt : ℤ → Type 0
IsInt (pos n) = n < 2 ^ 63
IsInt (negsuc n) = n < 2 ^ 63

positive-IsInt : (d : Digits) → IsInt (positive d)
positive-IsInt (value n) = ground arith
positive-IsInt too_large = omega arith
positive-IsInt no_number = omega arith

negative-IsInt : (d : Digits) → IsInt (negative d)
negative-IsInt (value n) = ground arith
negative-IsInt too_large = omega arith
negative-IsInt no_number = omega arith

-- Out of range the result is the nearest `int`.
pub atoi_codes-IsInt : (cs : List ℕ) → IsInt (atoi_codes cs)
unfolding atoi_codes
atoi_codes-IsInt [] = omega arith
atoi_codes-IsInt (c ∷ cs) =
    let plus = positive-IsInt (parse_uint cs) in
    let minus = negative-IsInt (parse_uint cs) in
    let plain = positive-IsInt (parse_uint (c ∷ cs)) in
    elim (Bool-cases (c == b'+')) [
      | inl e ↦ rw e plus
      | inr e ↦ elim (Bool-cases (c == b'-')) [ inl f ↦ rw (e, f) minus | inr f ↦ rw (e, f) plain ]
    ]
