-- ===== src/Sdk/SessionManager/Pages.antt =====
-- A browser tab through its pages: every call of the manager keeps what is stored in step with what
-- is in memory (sdk/src/core/session.ts, the calls of sdk/src/sdk.ts).
use staminads.Common.{
  ℕ, String, ◌≡◌, refl, sym, ap, ◌∙◌, Option, none, some, [], ◌∷◌, arith, All, Bool-cases, inl, inr,
}
use staminads.Sdk.SessionManager.Types.{
  CustomDimensions, truthy_or_null, Session, Page, parse_stm_dimensions,
}
use staminads.Sdk.SessionManager.{
  Config, SessionManager, CrossDomainInput, new_manager, set_cross_domain_input, load_dimensions,
  load_user_id, Clock, resumed, after_cross_domain, resume_or_create, get_or_create_session,
  is_valid_cross_domain, is_session_expired, update_session, dimension_error, DimensionError,
  unless_error, go_on, if_session, set_dimension, set_dimensions, clear_dimensions, set_user_id,
  is_long_id, fill_dimensions, apply_url_dimensions, reset,
}
use staminads.Sdk.SessionManager.Stored.{
  IsDimension, IsSound, session_keys, save_session-IsSound, save_dimensions-IsSound,
  save_user_id-IsSound, create_session-IsSound, put_dimension-IsDimension,
  fill_dimensions-IsDimension, parse_stm_dimensions-IsDimension,
}

-- The managers of the pages of one tab, from an empty storage on: each page makes a new manager over
-- what the earlier ones have stored. The updates of updateSession leave the dimensions and the user.
pub data Reach : SessionManager → Type 0 where
  first_page :
      (config : Config) (uuid : String)
      → Reach (
          new_manager config uuid
            (record { session = none; dimensions = none; user_id = none })
            none)
  next_page :
      {m : SessionManager} (config : Config) (uuid : String)
      → Reach m
      → Reach (new_manager config uuid m.store m.tab_store)
  cross :
      {m : SessionManager} (input : CrossDomainInput)
      → Reach m
      → Reach (set_cross_domain_input input m)
  get :
      {m : SessionManager} (page : Page) (clock : Clock) (uuid : String)
      → Reach m
      → Reach (get_or_create_session page clock uuid m).0
  update :
      {m : SessionManager} (fields : Session → Session) (updated active : ℕ)
      → ((s : Session) → ((fields s).dimensions ≡ s.dimensions) × ((fields s).user_id ≡ s.user_id))
      → Reach m
      → Reach (update_session fields updated active m)
  dimension :
      {m : SessionManager} (index : ℕ) (v : String) → Reach m → Reach (set_dimension index v m).0
  many_dimensions :
      {m : SessionManager} (d : CustomDimensions) → Reach m → Reach (set_dimensions d m).0
  cleared : {m : SessionManager} → Reach m → Reach (clear_dimensions m)
  user : {m : SessionManager} (id : Option String) → Reach m → Reach (set_user_id id m).0
  url :
      {m : SessionManager} (params : String → Option String)
      → Reach m
      → Reach (apply_url_dimensions (parse_stm_dimensions params) m)
  fresh :
      {m : SessionManager} (page : Page) (now : ℕ) (uuid : String)
      → Reach m
      → Reach (reset page now uuid m).0

dimension_error-IsDimension : (i : ℕ) (v : String) → dimension_error i v ≡ none → IsDimension (i, v)
dimension_error-IsDimension i v h = ground arith

if_session-IsSound :
    (f : Session → SessionManager) (o : Option Session) (m : SessionManager)
    → m.session ≡ o
    → IsSound m
    → ((s : Session) → m.session ≡ some s → IsSound (f s))
    → IsSound (if_session f o m)
if_session-IsSound f none m e h k = h
if_session-IsSound f (some s) m e h k = k s e

unless_error-IsSound :
    (o : Option DimensionError) (before after : SessionManager)
    → IsSound before
    → (o ≡ none → IsSound after)
    → IsSound (unless_error o before after).0
unless_error-IsSound none before after h k = k refl
unless_error-IsSound (some e) before after h k = h

go_on-IsSound :
    (o : Option DimensionError) (before : SessionManager)
    (later : SessionManager × Option DimensionError)
    → IsSound before
    → IsSound later.0
    → IsSound (go_on o before later).0
go_on-IsSound none before later h k = k
go_on-IsSound (some e) before later h k = h

session_dimensions :
    (m : SessionManager) (s : Session)
    → IsSound m
    → m.session ≡ some s
    → All IsDimension s.dimensions
session_dimensions m s h e = rw (session_keys m s h e).0 at h.dimensions

set_dimension-IsSound :
    (i : ℕ) (v : String) (m : SessionManager) → IsSound m → IsSound (set_dimension i v m).0
unfolding set_dimension
set_dimension-IsSound i v m h = unless_error-IsSound (dimension_error i v) m _ h λ fine.
    if_session-IsSound _ m.session m refl h λ s e. save_dimensions-IsSound m s _ h e (
      put_dimension-IsDimension s.dimensions i v (session_dimensions m s h e)
        (dimension_error-IsDimension i v fine))

set_dimensions-IsSound :
    (d : CustomDimensions) (m : SessionManager) → IsSound m → IsSound (set_dimensions d m).0
unfolding set_dimensions
set_dimensions-IsSound [] m h = h
set_dimensions-IsSound ((i, v) ∷ rest) m h =
    go_on-IsSound (set_dimension i v m).1 m _ h
      (set_dimensions-IsSound rest _ (set_dimension-IsSound i v m h))

clear_dimensions-IsSound : (m : SessionManager) → IsSound m → IsSound (clear_dimensions m)
unfolding clear_dimensions
clear_dimensions-IsSound m h =
    if_session-IsSound _ m.session m refl h λ s e. save_dimensions-IsSound m s [] h e tt

set_user_id-IsSound :
    (id : Option String) (m : SessionManager) → IsSound m → IsSound (set_user_id id m).0
unfolding set_user_id
set_user_id-IsSound id m h = elim (Bool-cases (is_long_id id)) [
  | inl long ↦ rw long h
  | inr short ↦
      rw short (if_session-IsSound _ m.session m refl h λ s e. save_user_id-IsSound m s id h e)
]

apply_url_dimensions-IsSound :
    (found : CustomDimensions) (m : SessionManager)
    → All IsDimension found
    → IsSound m
    → IsSound (apply_url_dimensions found m)
unfolding apply_url_dimensions
apply_url_dimensions-IsSound found m k h = if_session-IsSound _ m.session m refl h λ s e.
    elim (Bool-cases (fill_dimensions s.dimensions found).1) [
      | inl changed ↦ rw changed (
          save_dimensions-IsSound m s _ h e
            (fill_dimensions-IsDimension s.dimensions found (session_dimensions m s h e) k))
      | inr same ↦ rw same h
    ]

update_session-IsSound :
    (fields : Session → Session) (updated active : ℕ) (m : SessionManager)
    → ((s : Session) → ((fields s).dimensions ≡ s.dimensions) × ((fields s).user_id ≡ s.user_id))
    → IsSound m
    → IsSound (update_session fields updated active m)
unfolding update_session
update_session-IsSound fields updated active m keep h =
    if_session-IsSound _ m.session m refl h λ s e.
      let (d, u) = session_keys m s h e in
      save_session-IsSound m _ h (d ∙ sym (keep s).0, u ∙ ap truthy_or_null (sym (keep s).1))

resume_or_create-IsSound :
    (page : Page) (clock : Clock) (uuid : String) (o : Option Session) (m : SessionManager)
    → m.store.session ≡ o
    → IsSound m
    → IsSound (resume_or_create page clock uuid o m).0
unfolding load_dimensions load_user_id
resume_or_create-IsSound page clock uuid none m e h =
    create_session-IsSound page clock.create uuid m h
resume_or_create-IsSound page clock uuid (some s) m e h =
    elim (Bool-cases (is_session_expired m.config.session_timeout clock.check s)) [
      | inl late ↦ rw late (create_session-IsSound page clock.create uuid m h)
      | inr timely ↦ rw timely (save_session-IsSound m (resumed clock s) h (rw e at h.same_keys))
    ]

after_cross_domain-IsSound :
    (page : Page) (clock : Clock) (uuid : String) (o : Option CrossDomainInput) (m : SessionManager)
    → IsSound m
    → IsSound (after_cross_domain page clock uuid o m).0
after_cross_domain-IsSound page clock uuid none m h =
    resume_or_create-IsSound page clock uuid m.store.session m refl h
after_cross_domain-IsSound page clock uuid (some input) m h =
    elim (Bool-cases (is_valid_cross_domain clock.cross input)) [
      | inl valid ↦ rw valid (create_session-IsSound page clock.create input.session_id m h)
      | inr stale ↦ rw stale (resume_or_create-IsSound page clock uuid m.store.session m refl h)
    ]

pub get_or_create_session-IsSound :
    (page : Page) (clock : Clock) (uuid : String) (m : SessionManager)
    → IsSound m
    → IsSound (get_or_create_session page clock uuid m).0
unfolding get_or_create_session
get_or_create_session-IsSound page clock uuid m h =
    after_cross_domain-IsSound page clock uuid m.cross_domain_input m h

reset-IsSound :
    (page : Page) (now : ℕ) (uuid : String) (m : SessionManager) → IsSound (reset page now uuid m).0
unfolding reset load_dimensions
reset-IsSound page now uuid m =
    create_session-IsSound page now uuid _ (record { same_keys = tt; kept = tt; dimensions = tt })

-- After any calls on any pages of a tab that started with an empty storage, the session in memory is
-- the stored one, the keys of the dimensions and of the user hold what it holds, an empty user id
-- counting as none, and every dimension has an index from 1 to 10 and at most 256 characters.
pub Reach-IsSound : (m : SessionManager) → Reach m → IsSound m
unfolding new_manager set_cross_domain_input load_dimensions
Reach-IsSound _ (first_page config uuid) = record { same_keys = tt; kept = tt; dimensions = tt }
Reach-IsSound _ (next_page {m = m} config uuid r) =
    let h = Reach-IsSound m r in
    record { same_keys = h.same_keys; kept = tt; dimensions = h.dimensions }
Reach-IsSound _ (cross {m = m} input r) =
    let h = Reach-IsSound m r in
    record { same_keys = h.same_keys; kept = h.kept; dimensions = h.dimensions }
Reach-IsSound _ (get {m = m} page clock uuid r) =
    get_or_create_session-IsSound page clock uuid m (Reach-IsSound m r)
Reach-IsSound _ (update {m = m} fields updated active keep r) =
    update_session-IsSound fields updated active m keep (Reach-IsSound m r)
Reach-IsSound _ (dimension {m = m} index v r) = set_dimension-IsSound index v m (Reach-IsSound m r)
Reach-IsSound _ (many_dimensions {m = m} d r) = set_dimensions-IsSound d m (Reach-IsSound m r)
Reach-IsSound _ (cleared {m = m} r) = clear_dimensions-IsSound m (Reach-IsSound m r)
Reach-IsSound _ (user {m = m} id r) = set_user_id-IsSound id m (Reach-IsSound m r)
Reach-IsSound _ (url {m = m} params r) =
    apply_url_dimensions-IsSound _ m (parse_stm_dimensions-IsDimension params) (Reach-IsSound m r)
Reach-IsSound _ (fresh {m = m} page now uuid r) = reset-IsSound page now uuid m
