-- ===== src/Config/Decimal.antt =====
-- A count of workers that is written in decimal.
use Prim.Native.String as Text
use Prim.Native.String.append
use Prim.Native.Char.{code}
use otel_forge.Prelude.{
  ℕ, zero, suc, ◌+◌, ◌-◌, ◌*◌, ◌/◌, ◌%◌, ◌^◌, ◌≤◌, ◌<◌, ◌≡◌, ◌≢◌, ◌∙◌, is_blank, eq_iff, refl, ap,
  false, String, List, [], ◌∷◌, ◌++◌, ltb, inl, inr, Bool-cases, arith,
}
use otel_forge.Prelude.Text.{◌⧺◌, itoa, digit, decimal_fuel}
use otel_forge.Prelude.Int.{pos}
use otel_forge.Action.{ok}
use otel_forge.Config.{Config, load, env_or}
use otel_forge.Config.Bounds.{load_ok}
use otel_forge.Prelude.Text.{codes}
use otel_forge.Prelude.Atoi.{value, parse_digits, atoi_codes, atoi}

codes-append : (s t : String) → codes (s ⧺ t) ≡ codes s ++ codes t
codes-append Text.[] t = ap codes (append.nil t)
codes-append (Text.◌∷◌ c s) t =
    ap codes (append.cons c s t) ∙ ap (λ cs. code c ∷ cs) (codes-append s t)

-- One digit more at the end of a number that is read.
parse_digits-digit :
    (a : ℕ) (cs : List ℕ) (m d : ℕ)
    → parse_digits a cs ≡ value m
    → d < 10
    → m * 10 + d < 2 ^ 64
    → parse_digits a (cs ++ (d + 48) ∷ []) ≡ value (m * 10 + d)
unfolding parse_digits
parse_digits-digit a [] m d h small fits = ground arith
parse_digits-digit a (c ∷ cs) m d h small fits =
    ground (arith, parse_digits-digit (a * 10 + (c - 48)) cs m d)

codes-digit : (d : ℕ) → d < 10 → codes (digit d) ≡ (d + 48) ∷ []
codes-digit zero h = refl
codes-digit (suc zero) h = refl
codes-digit (suc (suc zero)) h = refl
codes-digit (suc (suc (suc zero))) h = refl
codes-digit (suc (suc (suc (suc zero)))) h = refl
codes-digit (suc (suc (suc (suc (suc zero))))) h = refl
codes-digit (suc (suc (suc (suc (suc (suc zero)))))) h = refl
codes-digit (suc (suc (suc (suc (suc (suc (suc zero))))))) h = refl
codes-digit (suc (suc (suc (suc (suc (suc (suc (suc zero)))))))) h = refl
codes-digit (suc (suc (suc (suc (suc (suc (suc (suc (suc zero))))))))) h = refl
codes-digit (suc (suc (suc (suc (suc (suc (suc (suc (suc (suc n)))))))))) h = absurd (omega arith)

parse_digits-decimal :
    (k n : ℕ) → n < k → n < 2 ^ 64 → parse_digits 0 (codes (decimal_fuel k n)) ≡ value n
unfolding decimal_fuel
parse_digits-decimal zero n h fits = absurd (omega arith)
parse_digits-decimal (suc k) n h fits = elim (Bool-cases (ltb n 10)) [
  | inl small ↦ rw (small, codes-digit n (ground arith)) (unfold parse_digits in ground arith)
  | inr more ↦
      let last : n % 10 < 10 = omega arith in
      let start = parse_digits-decimal k (n / 10) (ground arith) (omega arith) in
      let whole : n / 10 * 10 + n % 10 ≡ n = omega arith in
      rw (more, codes-append (decimal_fuel k (n / 10)) (digit (n % 10)), codes-digit (n % 10) last)
        (parse_digits-digit 0 (codes (decimal_fuel k (n / 10))) (n / 10) (n % 10) start last
            (omega arith)
          ∙ ap value whole)
]

atoi_codes-number :
    (cs : List ℕ) (n : ℕ)
    → cs ≢ []
    → n < 2 ^ 63
    → parse_digits 0 cs ≡ value n
    → atoi_codes cs ≡ pos n
unfolding atoi_codes parse_digits
atoi_codes-number [] n some_code h e = absurd (some_code refl)
atoi_codes-number (c ∷ cs) n some_code h e = ground arith

parse_digits-itoa : (n : ℕ) → n < 2 ^ 64 → parse_digits 0 (codes (itoa n)) ≡ value n
unfolding itoa
parse_digits-itoa n h = parse_digits-decimal (n + 1) n (omega arith) h

-- Neither the empty list of digits nor the empty text is read as a number above 0.
some_digit : (n : ℕ) (cs : List ℕ) → 1 ≤ n → parse_digits 0 cs ≡ value n → cs ≢ []
unfolding parse_digits
some_digit n cs lo e none_left =
    let zero_read : parse_digits 0 cs ≡ value 0 = ap (parse_digits 0) none_left in
    let same : n ≡ 0 = ground arith in omega arith

itoa-given : (n : ℕ) → 1 ≤ n → n < 2 ^ 64 → is_blank (itoa n) ≡ false
itoa-given n lo hi = elim (Bool-cases (is_blank (itoa n))) [
  | inl blank ↦ absurd (
      some_digit n (codes (itoa n)) lo (parse_digits-itoa n hi)
        (ap codes ((eq_iff (itoa n) "").0 blank)))
  | inr fine ↦ fine
]

-- A number of at least 1 that an `int` holds, written in decimal, is the count of workers.
pub load-itoa :
    (getenv : String → String) (c : Config) (n : ℕ)
    → 1 ≤ n
    → n < 2 ^ 63
    → getenv "WORKER_CONCURRENCY" ≡ itoa n
    → load getenv ≡ ok c
    → c.worker_concurrency ≡ pos n
unfolding env_or atoi
load-itoa getenv c n lo hi set h =
    let (_, _, _, _, workers) = load_ok getenv h in
    let read = parse_digits-itoa n (omega arith) in
    let number = atoi_codes-number (codes (itoa n)) n (some_digit n _ lo read) hi read in
    workers ∙ rw (set, itoa-given n lo (omega arith), number) (ground arith)
