-- ===== src/Api/SessionHandler/Domain/Tests.antt =====
-- Requests from allowed and other domains (api/src/events/session-payload.handler.ts).
use staminads.Common.{String, true, false, some, [], ◌∷◌, ◌≡◌, ◌≢◌, ◌↔◌, refl}
use staminads.Common.Texts.{to_lower_case, trim, ends_with, slice_from}
use staminads.Api.SessionHandler.Domain.{
  extract_request_domain, is_domain_allowed, matches_any, matches_pattern,
}
use staminads.Api.SessionHandler.Domain.Matches.{AnyMatches, is_domain_allowed_iff}

subdomain_is_allowed : is_domain_allowed "Shop.Example.com" (some (" *.example.com" ∷ [])) ≡ true
unfolding is_domain_allowed matches_any matches_pattern to_lower_case trim ends_with slice_from
subdomain_is_allowed = refl

lookalike_is_refused : is_domain_allowed "badexample.com" (some ("*.example.com" ∷ [])) ≡ false
unfolding is_domain_allowed matches_any matches_pattern to_lower_case trim ends_with slice_from
lookalike_is_refused = refl

origin_first : extract_request_domain some (some "a.com") (some "b.com") ≡ "a.com"
unfolding extract_request_domain
origin_first = refl

referer_next : extract_request_domain some (some "") (some "b.com") ≡ "b.com"
unfolding extract_request_domain
referer_next = refl

abbrev subdomain : String
subdomain = "shop.example.com"

is_domain_allowed_iff_example :
    (is_domain_allowed subdomain (some ("*.example.com" ∷ [])) ≡ true)
    ↔ ((subdomain ≢ "") × AnyMatches (to_lower_case subdomain) ("*.example.com" ∷ []))
is_domain_allowed_iff_example = is_domain_allowed_iff subdomain "*.example.com" []
