-- ===== src/Sdk/CrossDomain.antt =====
-- sdk/src/core/cross-domain.ts: links that carry the session to another domain, and the reading of
-- what they carry, with its use in sdk/src/sdk.ts. JSON, base64 and URL are parameters (Platform).
pub mod Encoding
pub mod Links
mod Tests
use Prim.Native.Char.{Char, code}
use Prim.Native.String
use staminads.Common.{
  ℕ, zero, suc, ◌+◌, ◌-◌, ◌/◌, String, ◌≡◌, Bool, true, false, not, ◌&&◌, ◌||◌, Option, none, some,
  List, any, ltb, leb, ◌==◌, str_eq, if◌then◌else◌, ◌>>=◌,
}
use staminads.Common.Texts.{◌<>◌, to_lower_case, ends_with, slice_from}
use text.Mathlib.Text.{starts_with}
use staminads.Sdk.SessionManager.{
  clock_skew_tolerance, SessionManager, set_cross_domain_input, Clock, get_or_create_session,
}
use staminads.Sdk.SessionManager.Types.{Session, Page}

pub record CrossDomainPayload : Type 0 where
  pub s : String
  pub t : ℕ

-- What JSON.parse gives: the two fields, where they are a text and a number.
pub record Parsed : Type 0 where
  pub s : Option String
  pub t : Option ℕ

-- JSON, base64 and URL. `host` is `new URL(url, origin).hostname`, `none` where that throws.
pub record Platform : Type 0 where
  pub stringify : CrossDomainPayload → String
  pub parse : String → Option Parsed
  pub btoa : String → String
  pub atob : String → Option String
  pub host : String → Option String
  pub set_param : String → String → String → String
  pub get_param : String → String → Option String

abbrev pub param_name : String
param_name = "_stm"

-- `.replace(/\+/g, '-').replace(/\//g, '_')`
abbrev pub url_char : Char → Char
url_char c = if code c == 43 then "-" else if code c == 47 then "_" else c

-- `.replace(/-/g, '+').replace(/_/g, '/')`
abbrev pub base64_char : Char → Char
base64_char c = if code c == 45 then "+" else if code c == 95 then "/" else c

abbrev pub map_text : (Char → Char) → String → String
map_text f String.[] = ""
map_text f (String.◌∷◌ c s) = String.◌∷◌ (f c) (map_text f s)

abbrev pub pad_or_keep : Char → String → String
pad_or_keep c String.[] = if code c == 61 then "" else String.◌∷◌ c ""
pad_or_keep c (String.◌∷◌ d s) = String.◌∷◌ c (String.◌∷◌ d s)

-- `.replace(/=+$/, '')`
abbrev pub strip_padding : String → String
strip_padding String.[] = ""
strip_padding (String.◌∷◌ c s) = pad_or_keep c (strip_padding s)

unfoldable pub to_url : String → String
to_url s = strip_padding (map_text url_char s)

unfoldable pub from_url : String → String
from_url s = map_text base64_char s

abbrev is_hex : Char → Bool
is_hex c =
    (leb 48 (code c) && leb (code c) 57)
    || ((leb 97 (code c) && leb (code c) 102) || (leb 65 (code c) && leb (code c) 70))

-- The rest of a text after so many hexadecimal digits.
abbrev hex_run : ℕ → String → Option String
hex_run zero s = some s
hex_run (suc n) String.[] = none
hex_run (suc n) (String.◌∷◌ c s) = let rest = hex_run n s in if is_hex c then rest else none

abbrev dash : String → Option String
dash String.[] = none
dash (String.◌∷◌ c s) = if code c == 45 then some s else none

abbrev hex_dash : ℕ → String → Option String
hex_dash n s = hex_run n s >>= dash

-- `UUID_REGEX.test(text)`
unfoldable pub is_uuid : String → Bool
is_uuid text =
    elim (hex_dash 8 text >>= λ a.
    hex_dash 4 a >>= λ b. hex_dash 4 b >>= λ c. hex_dash 4 c >>= hex_run 12) [
      | none ↦ false
      | some rest ↦ str_eq rest ""
    ]

module _ (js : Platform) where
  unfoldable pub encode : CrossDomainPayload → String
  encode payload = to_url (js.btoa (js.stringify payload))

  -- The tests of the fields and of the form of the id.
  abbrev pub checked : Option String → Option ℕ → Option CrossDomainPayload
  checked (some s) (some t) = if is_uuid s then some (record { s = s; t = t }) else none
  checked _ _ = none

  unfoldable pub decode : String → Option CrossDomainPayload
  decode encoded = do
    json ← js.atob (from_url encoded)
    parsed ← js.parse json
    checked parsed.s parsed.t

  -- Lower case, without a leading `www.`.
  unfoldable pub normalize_hostname : String → String
  normalize_hostname hostname =
      let lower = to_lower_case hostname in
      if starts_with lower "www." then slice_from 4 lower else lower

  abbrev matches_domain : String → String → Bool
  matches_domain target domain =
      let normalized = normalize_hostname domain in
      str_eq target normalized || ends_with target ("." <> normalized)

  unfoldable pub should_decorate : List String → String → String → Bool
  should_decorate domains own_host url = elim (js.host url) [
    | none ↦ false
    | some hostname ↦
        not (str_eq hostname own_host) && any (matches_domain (normalize_hostname hostname)) domains
  ]

  -- `now` in milliseconds; where URL throws, the url stays as it is, which should_decorate sees first.
  unfoldable pub decorate_url : List String → String → String → ℕ → String → String
  decorate_url domains own_host session_id now url =
      if str_eq session_id ""
      then url
      else if should_decorate domains own_host url
      then js.set_param url param_name (encode (record { s = session_id; t = now / 1000 }))
      else url

  abbrev pub in_time : ℕ → ℕ → CrossDomainPayload → Option CrossDomainPayload
  in_time expiry now payload =
      if ltb expiry (now / 1000 - payload.t)
      then none
      else if ltb (now / 1000 + clock_skew_tolerance) payload.t
      then none
      else some payload

  abbrev pub decoded : ℕ → ℕ → Option String → Option CrossDomainPayload
  decoded expiry now none = none
  decoded expiry now (some encoded) =
      if str_eq encoded "" then none else (decode encoded >>= in_time expiry now)

  -- The URL of the page stands for `window.location`.
  unfoldable pub read_param : ℕ → ℕ → String → Option CrossDomainPayload
  read_param expiry now href = decoded expiry now (js.get_param href param_name)

  abbrev pub inject : ℕ → Option CrossDomainPayload → SessionManager → SessionManager
  inject expiry none m = m
  inject expiry (some payload) m =
      set_cross_domain_input
        (record { session_id = payload.s; timestamp = payload.t; expiry = expiry }) m

  -- The start of a page in sdk.ts: the parameter is read at `now`, and the session got.
  unfoldable pub start_session :
      ℕ → ℕ → Page → Clock → String → SessionManager → SessionManager × Session
  start_session expiry now page clock uuid m =
      get_or_create_session page clock uuid (inject expiry (read_param expiry now page.href) m)
