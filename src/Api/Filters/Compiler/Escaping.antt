-- ===== src/Api/Filters/Compiler/Escaping.antt =====
-- escapeSQL of api/src/filters/lib/filter-compiler.ts.
use Prim.Native.Char.{Char, code}
use text.Mathlib.TextLemmas.{nil-append, cons-append}
use staminads.Common.{
  ℕ, String, ◌≡◌, refl, ap, ◌∙◌, ◌⊎◌, inl, inr, Bool, false, Option, none, some, arith, ◌==◌,
  if◌then◌else◌, Bool-cases,
}
use staminads.Common.Texts.{◌<>◌}

-- `value.replace(/…/g, …)`: a backslash before every occurrence of one character.
abbrev pub escape_char : ℕ → String → String
escape_char k String.[] = ""
escape_char k (String.◌∷◌ c s) =
    let rest = escape_char k s in
    if code c == k then String.◌∷◌ "\\" (String.◌∷◌ c rest) else String.◌∷◌ c rest

-- First the backslashes, then the quotes.
unfoldable pub escape_sql : String → String
escape_sql value = escape_char 39 (escape_char 92 value)

-- `escapeRegex`
unfoldable pub escape_regex : String → String
escape_regex pattern = escape_char 39 (escape_char 92 pattern)

abbrev pub opens_with_quote : String → Bool
opens_with_quote String.[] = false
opens_with_quote (String.◌∷◌ c s) = code c == 39

abbrev first_then : Char → Option (String × String) → Option (String × String)
first_then c none = none
first_then c (some (s, rest)) = some (String.◌∷◌ c s, rest)

module _ (unescape : Char → Char) where
  -- Reads a literal of ClickHouse after its opening quote: the text that it stands for, and what
  -- follows the closing quote. A backslash escapes the next character, a doubled quote is a quote.
  unfoldable pub read_literal : String → Option (String × String)
  read_literal String.[] = none
  read_literal (String.◌∷◌ c String.[]) = if code c == 39 then some ("", "") else none
  read_literal (String.◌∷◌ c (String.◌∷◌ d s)) =
      let after = read_literal s in
      let next = read_literal (String.◌∷◌ d s) in
      if code c == 39
      then (if code d == 39 then first_then d after else some ("", String.◌∷◌ d s))
      else if code c == 92
      then first_then (unescape d) after
      else first_then c next

  read-plain :
      (c : Char) (s : String)
      → (code c == 39) ≡ false
      → (code c == 92) ≡ false
      → read_literal (String.◌∷◌ c s) ≡ first_then c (read_literal s)
  unfolding read_literal
  read-plain c String.[] q b = rw q refl
  read-plain c (String.◌∷◌ d s) q b = rw (q, b) refl

  read-escaped :
      (b d : Char) (s : String)
      → code b ≡ 92
      → read_literal (String.◌∷◌ b (String.◌∷◌ d s)) ≡ first_then (unescape d) (read_literal s)
  unfolding read_literal
  read-escaped b d s e = rw e refl

  read-closed :
      (rest : String)
      → opens_with_quote rest ≡ false
      → read_literal (String.◌∷◌ "'" rest) ≡ some ("", rest)
  unfolding read_literal
  read-closed String.[] h = refl
  read-closed (String.◌∷◌ d s) h = rw h refl

  module _ (keeps : (c : Char) → (code c ≡ 39) ⊎ (code c ≡ 92) → unescape c ≡ c) where
    -- The literal that the compiler writes for a text reads as that text, whatever the text
    -- contains, and ends at the closing quote, as long as no second quote follows.
    pub read_literal-escape_sql :
        (value rest : String)
        → opens_with_quote rest ≡ false
        → read_literal (escape_sql value <> String.◌∷◌ "'" rest) ≡ some (value, rest)
    unfolding escape_sql
    read_literal-escape_sql String.[] rest h = rw nil-append (read-closed rest h)
    read_literal-escape_sql (String.◌∷◌ c s) rest h =
        let ih = read_literal-escape_sql s rest h in
        elim (Bool-cases (code c == 39)) [
          | inl quote ↦
              let no_slash : (code c == 92) ≡ false = ground arith in
              rw (no_slash, quote, cons-append, cons-append)
                (read-escaped "\\" c _ refl
                  ∙ rw (keeps c (inl (ground arith))) (ap (first_then c) ih))
          | inr other ↦ elim (Bool-cases (code c == 92)) [
            | inl slash ↦
                rw (slash, other, cons-append, cons-append)
                  (read-escaped "\\" c _ refl
                    ∙ rw (keeps c (inr (ground arith))) (ap (first_then c) ih))
            | inr plain ↦
                rw (plain, other, cons-append) (read-plain c _ other plain ∙ ap (first_then c) ih)
          ]
        ]
