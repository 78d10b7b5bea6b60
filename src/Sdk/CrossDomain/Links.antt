-- ===== src/Sdk/CrossDomain/Links.antt =====
-- A link from one domain to another (sdk/src/core/cross-domain.ts, sdk/src/core/session.ts).
use staminads.Common.{
  ℕ, ◌+◌, ◌/◌, ◌≤◌, String, ◌≡◌, refl, sym, ap, ◌∙◌, true, false, some, List, arith, str_eq, eq_iff,
  Bool-cases, inl, inr,
}
use staminads.Sdk.SessionManager.{
  SessionManager, Clock, set_cross_domain_input, is_valid_cross_domain, create_session,
  fresh_session, get_or_create_session,
}
use staminads.Sdk.SessionManager.Types.{Page}
use staminads.Sdk.CrossDomain.{
  CrossDomainPayload, Platform, param_name, strip_padding, from_url, is_uuid, encode, decode,
  should_decorate, decorate_url, in_time, read_param, inject, start_session,
}
use staminads.Sdk.CrossDomain.Encoding.{is_plain, from_url-to_url}

-- Of a payload and a URL: JSON gives back the payload, base64 uses its own alphabet for its text,
-- which can be read without the padding, and the parameter that is set is the one that is read.
pub record IsPlatform (js : Platform) (p : CrossDomainPayload) (url : String) : Type 0 where
  pub parse_stringify : js.parse (js.stringify p) ≡ some (record { s = some p.s; t = some p.t })
  pub alphabet : is_plain (js.btoa (js.stringify p)) ≡ true
  pub atob_btoa : js.atob (strip_padding (js.btoa (js.stringify p))) ≡ some (js.stringify p)
  pub filled : str_eq (strip_padding (js.btoa (js.stringify p))) "" ≡ false
  pub get_set : (v : String) → js.get_param (js.set_param url param_name v) param_name ≡ some v

module _ (js : Platform) (p : CrossDomainPayload) (url : String) (laws : IsPlatform js p url) where
  decode-encode : is_uuid p.s ≡ true → decode js (encode js p) ≡ some p
  unfolding decode encode
  decode-encode h =
      rw (from_url-to_url (js.btoa (js.stringify p)) laws.alphabet)
        (rw laws.atob_btoa (rw laws.parse_stringify (rw h refl)))

  encode_filled : str_eq (encode js p) "" ≡ false
  unfolding encode from_url
  encode_filled = elim (Bool-cases (str_eq (encode js p) "")) [
    | inr filled ↦ filled
    | inl blank ↦
        let plain = from_url-to_url (js.btoa (js.stringify p)) laws.alphabet in
        let e : encode js p ≡ "" = (eq_iff (encode js p) "").0 blank in
        let stripped : "" ≡ strip_padding (js.btoa (js.stringify p)) =
          sym (ap from_url e) ∙ plain in
        absurd (ground (arith, rw (← stripped) at laws.filled))
  ]

in_time-some :
    (js : Platform) (expiry now : ℕ) (p : CrossDomainPayload)
    → now / 1000 ≤ p.t + expiry
    → p.t ≤ now / 1000 + 60
    → in_time js expiry now p ≡ some p
in_time-some js expiry now p h k = ground arith

module _ (js : Platform) (domains : List String) (own_host session_id url : String)
    (clicked expiry : ℕ) (laws : IsPlatform js (record { s = session_id; t = clicked / 1000 }) url)
    (uuid : is_uuid session_id ≡ true)
    (decorate : should_decorate js domains own_host url ≡ true) where
  abbrev sent : CrossDomainPayload
  sent = record { s = session_id; t = clicked / 1000 }

  abbrev link : String
  link = decorate_url js domains own_host session_id clicked url

  link_lem : link ≡ js.set_param url param_name (encode js sent)
  unfolding decorate_url is_uuid
  link_lem = elim (Bool-cases (str_eq session_id "")) [
    | inr filled ↦ rw (filled, decorate) refl
    | inl blank ↦
        let e : session_id ≡ "" = (eq_iff session_id "").0 blank in
        absurd (ground (arith, rw e at uuid))
  ]

  -- The link that is clicked carries the session to the other domain: read within the expiry, and
  -- by a clock that is at most a minute behind, it gives the session's id and the time of the click.
  pub read_param-decorate_url :
      (now : ℕ)
      → now / 1000 ≤ clicked / 1000 + expiry
      → clicked / 1000 ≤ now / 1000 + 60
      → read_param js expiry now link ≡ some sent
  unfolding read_param
  read_param-decorate_url now h k =
      rw
        (
          link_lem,
          laws.get_set (encode js sent),
          encode_filled js sent url laws,
          decode-encode js sent url laws uuid,
        )
        (in_time-some js expiry now sent h k)

  is_valid_link :
      (now : ℕ)
      → now / 1000 ≤ clicked / 1000 + expiry
      → clicked / 1000 ≤ now / 1000 + 60
      → is_valid_cross_domain now
          (record { session_id = session_id; timestamp = clicked / 1000; expiry = expiry })
        ≡ true
  unfolding is_valid_cross_domain
  is_valid_link now h k = ground arith

  inject_session :
      (page : Page) (clock : Clock) (generated : String) (m : SessionManager)
      → clock.cross / 1000 ≤ clicked / 1000 + expiry
      → clicked / 1000 ≤ clock.cross / 1000 + 60
      → (get_or_create_session page clock generated (inject js expiry (some sent) m)).1.id
        ≡ session_id
  unfolding get_or_create_session set_cross_domain_input create_session fresh_session
  inject_session page clock generated m h k = rw (is_valid_link clock.cross h k) refl

  -- A page that is opened by a decorated link goes on with the session of the page where the link
  -- was clicked, whatever its own storage holds: both readings of the clock are at most the expiry
  -- after the click and at most a minute before it, in whole seconds.
  pub start_session-decorate_url :
      (now : ℕ) (page : Page) (clock : Clock) (generated : String) (m : SessionManager)
      → page.href ≡ link
      → now / 1000 ≤ clicked / 1000 + expiry
      → clicked / 1000 ≤ now / 1000 + 60
      → clock.cross / 1000 ≤ clicked / 1000 + expiry
      → clicked / 1000 ≤ clock.cross / 1000 + 60
      → (start_session js expiry now page clock generated m).1.id ≡ session_id
  unfolding start_session
  start_session-decorate_url now page clock generated m opened h k h' k' =
      ap (λ o. (get_or_create_session page clock generated (inject js expiry o m)).1.id)
        (ap (read_param js expiry now) opened ∙ read_param-decorate_url now h k)
      ∙ inject_session page clock generated m h' k'
