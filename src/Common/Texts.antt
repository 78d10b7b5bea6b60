-- ===== src/Common/Texts.antt =====
-- Texts of JavaScript: case, trimming, suffixes and the decimal notation of whole numbers. Letters
-- beyond ASCII keep their case here.
use Prim.Native.Nat.{ℕ, zero, suc, ◌+◌, ◌-◌, ◌*◌, ◌/◌, ◌%◌, ◌<◌}
use Prim.Native.Char.{Char, code}
use Prim.Native.String
use Prim.Native.String.{String, char_at}
use mathlib.Core.Path.{◌≡◌, refl, sym, ap, ◌∙◌}
use mathlib.Core.Logic.{inl, inr}
use mathlib.Core.Bool.{Bool, true, ◌&&◌, ◌||◌}
use native.Mathlib.Omega.{arith}
use text.Mathlib.Text.{◌==◌ as str_eq}
use text.Mathlib.TextEquality.{eq_iff}
use text.Mathlib.TextLemmas.{nil-append, cons-append}
use text.Mathlib.TextPositions.{eq_refl}
use staminads.Common.Tests.{Bool-cases, ltb→lt, ltb, leb, ◌==◌, if◌then◌else◌}

infixr 65 ◌<>◌
abbrev pub ◌<>◌ : String → String → String
s <> t = String.◌++◌ s t

abbrev lower_char : Char → Char
lower_char c =
    if leb 65 (code c) && leb (code c) 90
    then char_at "abcdefghijklmnopqrstuvwxyz" (code c - 65)
    else c

-- `s.toLowerCase()`
unfoldable pub to_lower_case : String → String
to_lower_case String.[] = ""
to_lower_case (String.◌∷◌ c s) = String.◌∷◌ (lower_char c) (to_lower_case s)

-- Space, tab, line feed and carriage return.
abbrev is_space : Char → Bool
is_space c = code c == 32 || (code c == 9 || (code c == 10 || code c == 13))

abbrev trim_start : String → String
trim_start String.[] = ""
trim_start (String.◌∷◌ c s) = let rest = trim_start s in if is_space c then rest else String.◌∷◌ c s

abbrev keep : Char → String → String
keep c String.[] = if is_space c then "" else String.◌∷◌ c ""
keep c (String.◌∷◌ d s) = String.◌∷◌ c (String.◌∷◌ d s)

abbrev trim_end : String → String
trim_end String.[] = ""
trim_end (String.◌∷◌ c s) = keep c (trim_end s)

-- `s.trim()`
unfoldable pub trim : String → String
trim s = trim_end (trim_start s)

-- `s.endsWith(t)`
unfoldable pub ends_with : String → String → Bool
ends_with String.[] t = str_eq "" t
ends_with (String.◌∷◌ c s) t = let later = ends_with s t in str_eq (String.◌∷◌ c s) t || later

-- `s.slice(n)`, by characters
unfoldable pub slice_from : ℕ → String → String
slice_from zero s = s
slice_from (suc n) String.[] = ""
slice_from (suc n) (String.◌∷◌ c s) = slice_from n s

pub ends_with-suffix : (s t : String) → ends_with s t ≡ true → (u : String) × (s ≡ u <> t)
unfolding ends_with
ends_with-suffix String.[] t h = ("", (eq_iff "" t).0 h ∙ sym (nil-append t))
ends_with-suffix (String.◌∷◌ c s) t h = elim (Bool-cases (str_eq (String.◌∷◌ c s) t)) [
  | inl whole ↦ ("", (eq_iff (String.◌∷◌ c s) t).0 whole ∙ sym (nil-append t))
  | inr part ↦
      let (u, e) = ends_with-suffix s t (ground arith) in
      (String.◌∷◌ c u, ap (λ r. String.◌∷◌ c r) e ∙ sym (cons-append c u t))
]

ends_with_self : (t : String) → ends_with t t ≡ true
unfolding ends_with
ends_with_self String.[] = refl
ends_with_self (String.◌∷◌ c s) = rw (eq_refl (String.◌∷◌ c s)) refl

pub ends_with-append : (u t : String) → ends_with (u <> t) t ≡ true
unfolding ends_with
ends_with-append String.[] t = rw (nil-append t) (ends_with_self t)
ends_with-append (String.◌∷◌ c u) t =
    let later = ends_with-append u t in rw (cons-append c u t) (ground arith)

abbrev digit : ℕ → String
digit zero = "0"
digit (suc zero) = "1"
digit (suc (suc zero)) = "2"
digit (suc (suc (suc zero))) = "3"
digit (suc (suc (suc (suc zero)))) = "4"
digit (suc (suc (suc (suc (suc zero))))) = "5"
digit (suc (suc (suc (suc (suc (suc zero)))))) = "6"
digit (suc (suc (suc (suc (suc (suc (suc zero))))))) = "7"
digit (suc (suc (suc (suc (suc (suc (suc (suc zero)))))))) = "8"
digit _ = "9"

decimal_fuel : ℕ → ℕ → String
decimal_fuel zero n = ""
decimal_fuel (suc fuel) n =
    let front = decimal_fuel fuel (n / 10) in if ltb n 10 then digit n else front <> digit (n % 10)

-- `String(n)` of a whole number; the fuel is more than the number of digits.
unfoldable pub decimal : ℕ → String
unfolding decimal_fuel
decimal n = decimal_fuel (suc n) n

-- What a row of digits stands for, after `acc`.
unfoldable pub number : ℕ → String → ℕ
number acc String.[] = acc
number acc (String.◌∷◌ c s) = number (acc * 10 + (code c - 48)) s

-- `/^\d*$/.test(s)`
unfoldable pub all_digits : String → Bool
all_digits String.[] = true
all_digits (String.◌∷◌ c s) = (leb 48 (code c) && leb (code c) 57) && all_digits s

number-append : (s t : String) (acc : ℕ) → number acc (s <> t) ≡ number (number acc s) t
unfolding number
number-append String.[] t acc = rw (nil-append t) refl
number-append (String.◌∷◌ c s) t acc =
    rw (cons-append c s t) (number-append s t (acc * 10 + (code c - 48)))

number-digit : (d acc : ℕ) → d < 10 → number acc (digit d) ≡ acc * 10 + d
unfolding number
number-digit zero acc h = omega arith
number-digit (suc zero) acc h = omega arith
number-digit (suc (suc zero)) acc h = omega arith
number-digit (suc (suc (suc zero))) acc h = omega arith
number-digit (suc (suc (suc (suc zero)))) acc h = omega arith
number-digit (suc (suc (suc (suc (suc zero))))) acc h = omega arith
number-digit (suc (suc (suc (suc (suc (suc zero)))))) acc h = omega arith
number-digit (suc (suc (suc (suc (suc (suc (suc zero))))))) acc h = omega arith
number-digit (suc (suc (suc (suc (suc (suc (suc (suc zero)))))))) acc h = omega arith
number-digit (suc (suc (suc (suc (suc (suc (suc (suc (suc zero))))))))) acc h = omega arith
number-digit (suc (suc (suc (suc (suc (suc (suc (suc (suc (suc d)))))))))) acc h =
    absurd (omega arith)

number-decimal_fuel : (fuel n : ℕ) → n < fuel → number 0 (decimal_fuel fuel n) ≡ n
unfolding decimal_fuel
number-decimal_fuel zero n h = absurd (omega arith)
number-decimal_fuel (suc fuel) n h = elim (Bool-cases (ltb n 10)) [
  | inl small ↦ rw small (number-digit n 0 (ltb→lt n 10 small) ∙ omega arith)
  | inr large ↦ rw large (
      number-append (decimal_fuel fuel (n / 10)) (digit (n % 10)) 0
      ∙ number-digit (n % 10) (number 0 (decimal_fuel fuel (n / 10))) (omega arith)
      ∙ omega (arith, number-decimal_fuel fuel (n / 10) (ground arith)))
]

-- Different numbers are written differently.
pub decimal_inj : (n m : ℕ) → decimal n ≡ decimal m → n ≡ m
unfolding decimal
decimal_inj n m e =
    sym (number-decimal_fuel (suc n) n (omega arith))
    ∙ ap (number 0) e
    ∙ number-decimal_fuel (suc m) m (omega arith)

decimal_test : decimal 1070 ≡ "1070"
unfolding decimal
decimal_test = refl

lower_test : trim (to_lower_case "  *.Example.COM ") ≡ "*.example.com"
unfolding trim to_lower_case
lower_test = refl

suffix_test : ends_with "a.example.com" ".example.com" ≡ true
unfolding ends_with
suffix_test = refl
