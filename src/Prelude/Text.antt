-- ===== src/Prelude/Text.antt =====
-- Texts built by the program: concatenation, and `strconv.Itoa` on the naturals.
use Prim.Native.Nat.{ℕ, zero, suc, ◌+◌, ◌/◌, ◌%◌}
use Prim.Native.Char.{code}
use Prim.Native.String.{String, ◌++◌ as ◌⧻◌}
use mathlib.Core.List.{List, [], ◌∷◌, ◌++◌}
use mathlib.Core.Option.{Option, none, some}
use mathlib.Core.Path.{◌≡◌, refl}
use otel_forge.Prelude.Tests.{ltb, ◌==◌, if◌then◌else◌}

-- The code points of a text: its bytes, if it is ASCII.
abbrev pub codes : String → List ℕ
codes String.[] = []
codes (String.◌∷◌ c s) = code c ∷ codes s

-- The bytes of one character in UTF-8.
abbrev char_bytes : ℕ → List ℕ
char_bytes c =
    if ltb c 0x80
    then c ∷ []
    else if ltb c 0x800
    then (0xc0 + c / 64) ∷ (0x80 + c % 64) ∷ []
    else if ltb c 0x10000
    then (0xe0 + c / 4096) ∷ (0x80 + c / 64 % 64) ∷ (0x80 + c % 64) ∷ []
    else (0xf0 + c / 262144) ∷ (0x80 + c / 4096 % 64) ∷ (0x80 + c / 64 % 64) ∷ (0x80 + c % 64) ∷ []

-- `[]byte(s)`
abbrev pub bytes : String → List ℕ
bytes String.[] = []
bytes (String.◌∷◌ c s) = char_bytes (code c) ++ bytes s

-- `strings.HasPrefix` and `strings.TrimPrefix`: the text behind the prefix, if it is there.
abbrev pub strip_prefix : String → String → Option String
strip_prefix String.[] s = some s
strip_prefix (String.◌∷◌ c p) String.[] = none
strip_prefix (String.◌∷◌ c p) (String.◌∷◌ d s) = if code c == code d then strip_prefix p s else none

infixr 65 ◌⧺◌
-- `s + t` on strings
abbrev pub ◌⧺◌ : String → String → String
s ⧺ t = s ⧻ t

abbrev pub digit : ℕ → String
digit n =
    if ltb n 1
    then "0"
    else if ltb n 2
    then "1"
    else if ltb n 3
    then "2"
    else if ltb n 4
    then "3"
    else if ltb n 5
    then "4"
    else if ltb n 6
    then "5"
    else if ltb n 7
    then "6"
    else if ltb n 8
    then "7"
    else if ltb n 9
    then "8"
    else "9"

-- The fuel is the number itself plus one, which is more than its digits.
unfoldable pub decimal_fuel : ℕ → ℕ → String
decimal_fuel zero n = ""
decimal_fuel (suc k) n =
    let rest = decimal_fuel k (n / 10) in if ltb n 10 then digit n else rest ⧺ digit (n % 10)

-- strconv.Itoa of a number that is not negative
unfoldable pub itoa : ℕ → String
unfolding decimal_fuel
itoa n = decimal_fuel (n + 1) n

itoa_127 : itoa 127 ≡ "127"
unfolding itoa
itoa_127 = refl
