-- ===== src/Sdk/CrossDomain/Encoding.antt =====
-- The alphabet of base64 and that of URLs (sdk/src/core/cross-domain.ts).
use Prim.Native.Char.{Char, code}
use text.Mathlib.TextEquality.{Char-path}
use staminads.Common.{
  String, ◌≡◌, refl, sym, ap, ◌∙◌, Bool, true, false, not, ◌&&◌, arith, ◌==◌, Bool-cases, inl, inr,
}
use staminads.Sdk.CrossDomain.{
  url_char, base64_char, map_text, pad_or_keep, strip_padding, to_url, from_url,
}

-- No character of the text is `-` or `_`, as in base64.
unfoldable pub is_plain : String → Bool
is_plain String.[] = true
is_plain (String.◌∷◌ c s) = (not (code c == 45) && not (code c == 95)) && is_plain s

base64_char-url_char :
    (c : Char) → (not (code c == 45) && not (code c == 95)) ≡ true → base64_char (url_char c) ≡ c
base64_char-url_char c h = elim (Bool-cases (code c == 43)) [
  | inl plus ↦ rw plus (sym (Char-path c "+" (ground arith)))
  | inr other ↦ elim (Bool-cases (code c == 47)) [
    | inl slash ↦ rw (other, slash) (sym (Char-path c "/" (ground arith)))
    | inr plain ↦
        let a : (code c == 45) ≡ false = ground arith in
        let b : (code c == 95) ≡ false = ground arith in rw (other, plain) (rw (a, b) refl)
  ]
]

code-url_char : (c : Char) → (code (url_char c) == 61) ≡ (code c == 61)
code-url_char c = elim (Bool-cases (code c == 43)) [
  | inl plus ↦ let n : (code c == 61) ≡ false = ground arith in rw (plus, n) refl
  | inr other ↦ elim (Bool-cases (code c == 47)) [
    | inl slash ↦ let n : (code c == 61) ≡ false = ground arith in rw (other, slash, n) refl
    | inr plain ↦ rw (other, plain) refl
  ]
]

map_text-pad_or_keep :
    (c : Char) (r : String)
    → base64_char (url_char c) ≡ c
    → map_text base64_char (pad_or_keep (url_char c) r) ≡ pad_or_keep c (map_text base64_char r)
map_text-pad_or_keep c String.[] h = rw (code-url_char c) (elim (Bool-cases (code c == 61)) [
  | inl pad ↦ rw pad refl
  | inr keep ↦ rw keep (ap (λ d. String.◌∷◌ d "") h)
])
map_text-pad_or_keep c (String.◌∷◌ d s) h =
    ap (λ e. String.◌∷◌ e (String.◌∷◌ (base64_char d) (map_text base64_char s))) h

-- Back from the alphabet of URLs, a text in base64 has only lost its padding.
pub from_url-to_url : (s : String) → is_plain s ≡ true → from_url (to_url s) ≡ strip_padding s
unfolding from_url to_url is_plain
from_url-to_url String.[] h = refl
from_url-to_url (String.◌∷◌ c s) h =
    map_text-pad_or_keep c (strip_padding (map_text url_char s))
      (base64_char-url_char c (ground arith))
    ∙ ap (pad_or_keep c) (from_url-to_url s (ground arith))
