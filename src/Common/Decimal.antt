-- ===== src/Common/Decimal.antt =====
-- Decimal numbers in text: Python's `str` of a number, and the greedy `\d+` of a regular expression
-- with `int` of what it matches.
use Prim.Native.Nat.{ℕ, zero, suc, ◌+◌, ◌-◌, ◌*◌, ◌/◌, ◌%◌, ◌<◌}
use Prim.Native.Char.{Char, code}
use Prim.Native.String.{String, ◌++◌}
use mathlib.Core.Path.{◌≡◌, refl, sym, ◌∙◌, ap}
use mathlib.Core.Logic.{inl, inr}
use mathlib.Core.Bool.{Bool, true, false, ◌&&◌}
use mathlib.Core.Option.{Option, none, some}
use native.Mathlib.Omega.{arith}
use text.Mathlib.TextLemmas.{nil-append, append-nil, cons-append}
use qiskit_ibm_provider.Common.Tests.{if◌then◌else◌, Bool-cases, ltb, leb, ltb→lt}

abbrev digit : ℕ → Char
digit zero = "0"
digit (suc zero) = "1"
digit (suc (suc zero)) = "2"
digit (suc (suc (suc zero))) = "3"
digit (suc (suc (suc (suc zero)))) = "4"
digit (suc (suc (suc (suc (suc zero))))) = "5"
digit (suc (suc (suc (suc (suc (suc zero)))))) = "6"
digit (suc (suc (suc (suc (suc (suc (suc zero))))))) = "7"
digit (suc (suc (suc (suc (suc (suc (suc (suc zero)))))))) = "8"
digit _ = "9"

code-digit : (d : ℕ) → d < 10 → code (digit d) ≡ 48 + d
code-digit zero h = refl
code-digit (suc zero) h = refl
code-digit (suc (suc zero)) h = refl
code-digit (suc (suc (suc zero))) h = refl
code-digit (suc (suc (suc (suc zero)))) h = refl
code-digit (suc (suc (suc (suc (suc zero))))) h = refl
code-digit (suc (suc (suc (suc (suc (suc zero)))))) h = refl
code-digit (suc (suc (suc (suc (suc (suc (suc zero))))))) h = refl
code-digit (suc (suc (suc (suc (suc (suc (suc (suc zero)))))))) h = refl
code-digit (suc (suc (suc (suc (suc (suc (suc (suc (suc zero))))))))) h = refl
code-digit (suc (suc (suc (suc (suc (suc (suc (suc (suc (suc d)))))))))) h = absurd (omega arith)

-- The digits of a number, in front of a text.
digits_onto : ℕ → ℕ → String → String
digits_onto zero n text = text
digits_onto (suc fuel) n text =
    let shown = String.◌∷◌ (digit (n % 10)) text in
    let rest = digits_onto fuel (n / 10) shown in if ltb n 10 then shown else rest

-- str(n): a number has fewer digits than `n + 1`.
unfoldable pub decimal : ℕ → String
unfolding digits_onto
decimal n = digits_onto (suc n) n String.[]

abbrev is_digit : Char → Bool
is_digit c = leb 48 (code c) && leb (code c) 57

scan : ℕ → String → ℕ × String
scan n String.[] = (n, String.[])
scan n (String.◌∷◌ c s) =
    let rest = scan (n * 10 + (code c - 48)) s in if is_digit c then rest else (n, String.◌∷◌ c s)

abbrev starts_digit : String → Bool
starts_digit String.[] = false
starts_digit (String.◌∷◌ c s) = is_digit c

-- `\d+` at the start of a text, and what follows the digits.
unfoldable pub number_prefix : String → Option (ℕ × String)
unfolding scan
number_prefix s = if starts_digit s then some (scan 0 s) else none

-- The text does not go on with a digit.
abbrev pub NoDigit : String → Type 0
NoDigit s = starts_digit s ≡ false

scan-digit : (n d : ℕ) (s : String) → d < 10 → scan n (String.◌∷◌ (digit d) s) ≡ scan (n * 10 + d) s
unfolding scan
scan-digit n d s h = ground (arith, code-digit d)

scan-digits_onto :
    (fuel n : ℕ) (text : String) → n < fuel → scan 0 (digits_onto fuel n text) ≡ scan n text
unfolding digits_onto
scan-digits_onto zero n text h = elim h [ ]
scan-digits_onto (suc fuel) n text h = elim (Bool-cases (ltb n 10)) [
  | inl e ↦ rw e (
      scan-digit 0 (n % 10) text (omega arith)
      ∙ ap (λ k. scan k text) (below_ten n (ltb→lt n 10 e)))
  | inr e ↦ rw e (
      scan-digits_onto fuel (n / 10) (String.◌∷◌ (digit (n % 10)) text) (smaller n fuel h e)
      ∙ scan-digit (n / 10) (n % 10) text (omega arith)
      ∙ ap (λ k. scan k text) (parts n))
]
  where
    below_ten : (m : ℕ) → m < 10 → 0 * 10 + m % 10 ≡ m
    below_ten m l = omega arith

    parts : (m : ℕ) → m / 10 * 10 + m % 10 ≡ m
    parts m = omega arith

    smaller : (m f : ℕ) → m < suc f → ltb m 10 ≡ false → m / 10 < f
    smaller m f l t = ground arith

is_digit-digit : (d : ℕ) → d < 10 → is_digit (digit d) ≡ true
is_digit-digit d h = ground (arith, code-digit d)

starts_digit-digits_onto :
    (fuel n : ℕ) (text : String)
    → starts_digit text ≡ true
    → starts_digit (digits_onto fuel n text) ≡ true
unfolding digits_onto
starts_digit-digits_onto zero n text h = h
starts_digit-digits_onto (suc fuel) n text h = elim (Bool-cases (ltb n 10)) [
  | inl e ↦ rw e (is_digit-digit (n % 10) (omega arith))
  | inr e ↦ rw e (starts_digit-digits_onto fuel (n / 10) _ (is_digit-digit (n % 10) (omega arith)))
]

starts_digit-decimal : (n : ℕ) (text : String) → starts_digit (digits_onto (suc n) n text) ≡ true
unfolding digits_onto
starts_digit-decimal n text = elim (Bool-cases (ltb n 10)) [
  | inl e ↦ rw e (is_digit-digit (n % 10) (omega arith))
  | inr e ↦ rw e (starts_digit-digits_onto n (n / 10) _ (is_digit-digit (n % 10) (omega arith)))
]

digits_onto-append :
    (fuel n : ℕ) (text rest : String)
    → digits_onto fuel n text ++ rest ≡ digits_onto fuel n (text ++ rest)
unfolding digits_onto
digits_onto-append zero n text rest = refl
digits_onto-append (suc fuel) n text rest = elim (Bool-cases (ltb n 10)) [
  | inl e ↦ rw e (cons-append (digit (n % 10)) text rest)
  | inr e ↦ rw e (
      digits_onto-append fuel (n / 10) (String.◌∷◌ (digit (n % 10)) text) rest
      ∙ ap (digits_onto fuel (n / 10)) (cons-append (digit (n % 10)) text rest))
]

scan_stop : (n : ℕ) (s : String) → NoDigit s → scan n s ≡ (n, s)
unfolding scan
scan_stop n String.[] h = refl
scan_stop n (String.◌∷◌ c s) h = rw h

-- A printed number is read back, with what follows it.
pub number_prefix-decimal :
    (n : ℕ) (rest : String) → NoDigit rest → number_prefix (decimal n ++ rest) ≡ some (n, rest)
unfolding number_prefix decimal
number_prefix-decimal n rest h = rw digits_onto-append (
    rw nil-append (
      rw (starts_digit-decimal n rest)
        (ap some (scan-digits_onto (suc n) n rest (omega arith) ∙ scan_stop n rest h))))

pub number_prefix-decimal_end : (n : ℕ) → number_prefix (decimal n) ≡ some (n, String.[])
number_prefix-decimal_end n =
    ap number_prefix (sym (append-nil (decimal n))) ∙ number_prefix-decimal n String.[] refl

pub NoDigit-colon : (s : String) → NoDigit (":" ++ s)
NoDigit-colon s = rw cons-append
