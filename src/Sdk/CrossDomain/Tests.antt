-- ===== src/Sdk/CrossDomain/Tests.antt =====
-- A link from shop.example to blog.example (sdk/src/core/cross-domain.test.ts), with a platform whose
-- JSON writes the time before the id and whose base64 only replaces the hyphens and adds padding.
use Prim.Native.Char.{code}
use staminads.Common.{
  ℕ, ◌+◌, ◌-◌, ◌*◌, ◌/◌, ◌≡◌, refl, String, true, Option, none, some, [], ◌∷◌, arith, ◌==◌, str_eq,
  if◌then◌else◌,
}
use staminads.Common.Texts.{◌<>◌, decimal, to_lower_case, ends_with, slice_from}
use staminads.Sdk.SessionManager.{SessionManager, Clock, new_manager}
use staminads.Sdk.SessionManager.Types.{Page}
use staminads.Sdk.CrossDomain.{
  Platform, Parsed, decorate_url, read_param, should_decorate, is_uuid, normalize_hostname,
  start_session, to_url, from_url, map_text, encode, decode,
}
use staminads.Sdk.CrossDomain.Encoding.{is_plain}
use staminads.Sdk.CrossDomain.Links.{IsPlatform, start_session-decorate_url}

links : Unit {0}
unfolding decorate_url read_param should_decorate is_uuid normalize_hostname to_url from_url encode
    decode is_plain decimal to_lower_case ends_with slice_from
links = tt

abbrev read_parsed : ℕ → String → Option Parsed
read_parsed t String.[] = none
read_parsed t (String.◌∷◌ c s) =
    let more = read_parsed (t * 10 + (code c - 48)) s in
    if code c == 44 then some (record { s = some s; t = some t }) else more

abbrev from_question : String → String → Option String
from_question name String.[] = none
from_question name (String.◌∷◌ c s) =
    let later = from_question name s in if code c == 63 then some s else later

abbrev platform : Platform
platform = record {
  stringify = λ p. decimal p.t <> "," <> p.s;
  parse = read_parsed 0;
  btoa = λ s. map_text (λ c. if code c == 45 then "*" else c) s <> "==";
  atob = λ s. some (map_text (λ c. if code c == 42 then "-" else c) s);
  host =
      λ url. if str_eq url "https://www.blog.example/post" then some "www.blog.example" else none;
  set_param = λ url name v. String.◌∷◌ "?" v;
  get_param = λ url name. from_question name url;
}

abbrev visitor : String
visitor = "0190a3f2-7c1d-7abc-8def-0123456789ab"

abbrev post : String
post = "https://www.blog.example/post"

abbrev clicked_link : String
clicked_link = decorate_url platform ("blog.example" ∷ []) "shop.example" visitor 1700000000500 post

platform-IsPlatform : IsPlatform platform (record { s = visitor; t = 1700000000500 / 1000 }) post
unfolding links
platform-IsPlatform = record {
  parse_stringify = refl;
  alphabet = refl;
  atob_btoa = refl;
  filled = refl;
  get_set = λ v. refl;
}

abbrev blog_page : Page
blog_page = record { href = clicked_link; referrer = ""; params = λ name. none }

abbrev blog_clock : Clock
blog_clock = record {
  cross = 1700000003000;
  check = 1700000003000;
  active = 1700000003000;
  update = 1700000003000;
  create = 1700000003000;
}

abbrev blog : SessionManager
blog =
    new_manager
      (record {
        workspace_id = "ws";
        session_timeout = 1800000;
        ad_click_ids = [];
        sdk_version = "6";
      })
      "tab" (record { session = none; dimensions = none; user_id = none }) none

link_decorated : should_decorate platform ("blog.example" ∷ []) "shop.example" post ≡ true
unfolding links
link_decorated = refl

visitor_lem : is_uuid visitor ≡ true
unfolding links
visitor_lem = refl

start_session-decorate_url_example :
    (start_session platform 120 1700000003000 blog_page blog_clock "generated" blog).1.id ≡ visitor
start_session-decorate_url_example =
    start_session-decorate_url platform ("blog.example" ∷ []) "shop.example" visitor post
      1700000000500 120 platform-IsPlatform visitor_lem link_decorated 1700000003000 blog_page
      blog_clock "generated" blog refl (omega arith) (omega arith) (omega arith) (omega arith)
