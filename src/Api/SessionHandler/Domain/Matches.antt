-- ===== src/Api/SessionHandler/Domain/Matches.antt =====
-- The patterns of allowed domains (isDomainAllowed of api/src/events/session-payload.handler.ts),
-- described without a loop or a slice.
use mathlib.Core.Path.{subst}
use text.Mathlib.Text.{starts_with}
use text.Mathlib.TextEquality.{starts_with_iff}
use text.Mathlib.TextLemmas.{nil-append, cons-append}
use text.Mathlib.TextPositions.{starts_with-append}
use staminads.Common.{
  String, true, false, some, List, [], ◌∷◌, str_eq, ◌≡◌, ◌≢◌, refl, sym, ◌∙◌, ap, inl, inr, ◌↔◌,
  arith, eq_iff, Bool-cases, String-cases, str_eq-false,
}
use staminads.Common.Texts.{
  ◌<>◌, to_lower_case, ends_with, slice_from, ends_with-suffix, ends_with-append,
}
use staminads.Api.SessionHandler.Domain.{
  pattern_of, matches_base, matches_pattern, matches_any, is_domain_allowed,
}

-- `*.base` takes the base and whatever ends with a dot and it; any other pattern takes itself.
pub data Matches (domain : String) (pattern : String) : Type 0 where
  exact : starts_with pattern "*." ≡ false → domain ≡ pattern → Matches domain pattern
  base : (b : String) → pattern ≡ "*." <> b → domain ≡ b → Matches domain pattern
  below : (b sub : String) → pattern ≡ "*." <> b → domain ≡ sub <> "." <> b → Matches domain pattern

-- One of the allowed domains matches.
pub data AnyMatches (domain : String) : List String → Type 0 where
  this :
      {a : String} {rest : List String}
      → Matches domain (pattern_of a)
      → AnyMatches domain (a ∷ rest)
  later : {a : String} {rest : List String} → AnyMatches domain rest → AnyMatches domain (a ∷ rest)

slice_from-wildcard : (b : String) → slice_from 2 ("*." <> b) ≡ b
unfolding slice_from
slice_from-wildcard b =
    ap (slice_from 2) (cons-append "*" "." b ∙ ap (λ r. String.◌∷◌ "*" r) (cons-append "." "" b))
    ∙ nil-append b

matches_base-Matches :
    (domain pattern b : String)
    → pattern ≡ "*." <> b
    → matches_base domain b ≡ true
    → Matches domain pattern
matches_base-Matches domain pattern b e h = elim (Bool-cases (str_eq domain b)) [
  | inl same ↦ base b e ((eq_iff domain b).0 same)
  | inr other ↦
      let (sub, split) = ends_with-suffix domain ("." <> b) (ground arith) in below b sub e split
]

matches_pattern-Matches :
    (domain pattern : String) → matches_pattern domain pattern ≡ true → Matches domain pattern
unfolding matches_pattern
matches_pattern-Matches domain pattern h = elim (Bool-cases (starts_with pattern "*.")) [
  | inl wild ↦
      let (b, e) = (starts_with_iff pattern "*.").0 wild in
      matches_base-Matches domain pattern b (sym e) (
        subst (λ c. matches_base domain c ≡ true)
          (ap (slice_from 2) (sym e) ∙ slice_from-wildcard b) (ground arith))
  | inr plain ↦ exact plain ((eq_iff domain pattern).0 (ground arith))
]

matches_wildcard :
    (domain pattern b : String)
    → pattern ≡ "*." <> b
    → matches_base domain b ≡ true
    → matches_pattern domain pattern ≡ true
unfolding matches_pattern
matches_wildcard domain pattern b e h =
    rw e (rw (starts_with-append "*." b) (rw (slice_from-wildcard b) h))

Matches-matches_pattern :
    (domain pattern : String) → Matches domain pattern → matches_pattern domain pattern ≡ true
unfolding matches_pattern
Matches-matches_pattern domain pattern (exact plain e) = rw plain ((eq_iff domain pattern).1 e)
Matches-matches_pattern domain pattern (base b e same) =
    matches_wildcard domain pattern b e (rw ((eq_iff domain b).1 same) refl)
Matches-matches_pattern domain pattern (below b sub e split) = matches_wildcard domain pattern b e (
    let ends =
      subst (λ d. ends_with d ("." <> b) ≡ true) (sym split) (ends_with-append sub ("." <> b)) in
    ground arith)

matches_any-AnyMatches :
    (domain : String) (allowed : List String)
    → matches_any domain allowed ≡ true
    → AnyMatches domain allowed
unfolding matches_any
matches_any-AnyMatches domain [] h = absurd (ground arith)
matches_any-AnyMatches domain (a ∷ rest) h =
    elim (Bool-cases (matches_pattern domain (pattern_of a))) [
      | inl here ↦ this (matches_pattern-Matches domain (pattern_of a) here)
      | inr not_here ↦ later (matches_any-AnyMatches domain rest (ground arith))
    ]

AnyMatches-matches_any :
    (domain : String) (allowed : List String)
    → AnyMatches domain allowed
    → matches_any domain allowed ≡ true
unfolding matches_any
AnyMatches-matches_any domain [] m = elim m [ ]
AnyMatches-matches_any domain (a ∷ rest) (this m) =
    rw (Matches-matches_pattern domain (pattern_of a) m) refl
AnyMatches-matches_any domain (a ∷ rest) (later m) =
    let found = AnyMatches-matches_any domain rest m in ground arith

-- When a workspace lists allowed domains, a request is let through exactly if its domain is known
-- and, in lower case, matches one of them: a pattern `*.base` takes the base and whatever ends with
-- a dot and it, any other pattern takes itself, both after lowering and trimming the pattern.
pub is_domain_allowed_iff :
    (domain first : String) (rest : List String)
    → (is_domain_allowed domain (some (first ∷ rest)) ≡ true)
      ↔ ((domain ≢ "") × AnyMatches (to_lower_case domain) (first ∷ rest))
unfolding is_domain_allowed
is_domain_allowed_iff domain first rest = (
  λ h. elim (String-cases domain "") [
    | inl empty ↦ absurd (ground (arith, eq_iff domain ""))
    | inr known ↦ (
      λ empty. absurd (ground (arith, eq_iff domain "")),
      matches_any-AnyMatches (to_lower_case domain) (first ∷ rest) (ground arith),
    )
  ],
  λ (known, m).
      let found = AnyMatches-matches_any (to_lower_case domain) (first ∷ rest) m in
      rw (str_eq-false domain "" known) found,
)
