-- ===== src/Api/SessionHandler/Domain.antt =====
-- The domains that a workspace allows (extractRequestDomain and isDomainAllowed of
-- api/src/events/session-payload.handler.ts). `new URL(text).hostname` is a parameter: `none` where
-- the constructor throws.
pub mod Matches
mod Tests
use text.Mathlib.Text.{starts_with}
use staminads.Common.{
  String, Bool, true, false, ◌||◌, Option, none, some, List, [], ◌∷◌, str_eq, if◌then◌else◌,
}
use staminads.Common.Texts.{◌<>◌, to_lower_case, trim, ends_with, slice_from}

module _ (hostname : String → Option String) where
  abbrev pub or_domain : Option String → String → String
  or_domain none other = other
  or_domain (some domain) other = domain

  -- The domain of a header that is there and can be parsed, or another.
  abbrev pub header_domain : Option String → String → String
  header_domain none other = other
  header_domain (some header) other =
      if str_eq header "" then other else or_domain (hostname header) other

  unfoldable pub extract_request_domain : Option String → Option String → String
  extract_request_domain origin referer = header_domain origin (header_domain referer "")

-- `allowed.toLowerCase().trim()`
abbrev pub pattern_of : String → String
pattern_of allowed = trim (to_lower_case allowed)

abbrev pub matches_base : String → String → Bool
matches_base normalized base = str_eq normalized base || ends_with normalized ("." <> base)

unfoldable pub matches_pattern : String → String → Bool
matches_pattern normalized pattern =
    if starts_with pattern "*."
    then matches_base normalized (slice_from 2 pattern)
    else str_eq normalized pattern

unfoldable pub matches_any : String → List String → Bool
matches_any normalized [] = false
matches_any normalized (allowed ∷ rest) =
    matches_pattern normalized (pattern_of allowed) || matches_any normalized rest

abbrev pub is_listed : String → List String → Bool
is_listed domain [] = true
is_listed domain (allowed ∷ rest) =
    if str_eq domain "" then false else matches_any (to_lower_case domain) (allowed ∷ rest)

unfoldable pub is_domain_allowed : String → Option (List String) → Bool
is_domain_allowed domain none = true
is_domain_allowed domain (some allowed_domains) = is_listed domain allowed_domains
