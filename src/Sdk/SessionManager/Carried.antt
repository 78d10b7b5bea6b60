-- ===== src/Sdk/SessionManager/Carried.antt =====
-- Which session a call of getOrCreateSession gives, and what it takes over from the one before
-- (sdk/src/core/session.ts).
use staminads.Common.{
  ℕ, ◌-◌, String, ◌≡◌, refl, sym, ap, ◌∙◌, Option, none, some, arith, ltb, if◌then◌else◌,
  Bool-cases, inl, inr, some_inj,
}
use staminads.Sdk.SessionManager.Types.{truthy_or_null, Session, Page}
use staminads.Sdk.SessionManager.{
  Config, Store, SessionManager, CrossDomainInput, load_dimensions, load_user_id, save_session,
  fresh_session, create_session, Clock, after_cross_domain, resume_or_create, get_or_create_session,
  is_valid_cross_domain, is_session_expired,
}
use staminads.Sdk.SessionManager.Stored.{HasSameKeys, session_keys, truthy_or_null-twice}
use staminads.Sdk.SessionManager.Pages.{Reach, Reach-IsSound}

-- The session `s` has the dimensions and the user that the store has.
abbrev HasKeysOf : Store → Session → Type 0
HasKeysOf store s =
    (s.dimensions ≡ load_dimensions store) × (truthy_or_null s.user_id ≡ load_user_id store)

-- What a call leaves for the next one.
record Leaves (m : SessionManager) (after : SessionManager × Session) : Type 0 where
  stored : after.0.store.session ≡ some after.1
  input : after.0.cross_domain_input ≡ m.cross_domain_input
  timeout : after.0.config ≡ m.config

module _ (page : Page) (clock : Clock) (uuid : String) where
  create_session-HasKeysOf :
      (now : ℕ) (id : String) (m : SessionManager)
      → HasKeysOf m.store (create_session page now id m).1
  unfolding create_session fresh_session load_user_id
  create_session-HasKeysOf now id m = (refl, truthy_or_null-twice m.store.user_id)

  resume_or_create-HasKeysOf :
      (o : Option Session) (m : SessionManager)
      → HasSameKeys m.store o
      → HasKeysOf m.store (resume_or_create page clock uuid o m).1
  resume_or_create-HasKeysOf none m h = create_session-HasKeysOf clock.create uuid m
  resume_or_create-HasKeysOf (some s) m h =
      elim (Bool-cases (is_session_expired m.config.session_timeout clock.check s)) [
        | inl late ↦ rw late (create_session-HasKeysOf clock.create uuid m)
        | inr timely ↦ rw timely (sym h.0, sym h.1)
      ]

  after_cross_domain-HasKeysOf :
      (o : Option CrossDomainInput) (m : SessionManager)
      → HasSameKeys m.store m.store.session
      → HasKeysOf m.store (after_cross_domain page clock uuid o m).1
  after_cross_domain-HasKeysOf none m h = resume_or_create-HasKeysOf m.store.session m h
  after_cross_domain-HasKeysOf (some input) m h =
      elim (Bool-cases (is_valid_cross_domain clock.cross input)) [
        | inl valid ↦ rw valid (create_session-HasKeysOf clock.create input.session_id m)
        | inr stale ↦ rw stale (resume_or_create-HasKeysOf m.store.session m h)
      ]

  get_or_create_session-HasKeysOf :
      (m : SessionManager)
      → HasSameKeys m.store m.store.session
      → HasKeysOf m.store (get_or_create_session page clock uuid m).1
  unfolding get_or_create_session
  get_or_create_session-HasKeysOf m h = after_cross_domain-HasKeysOf m.cross_domain_input m h

  -- Whatever session the tab gets next, on the same page or on a later one with another manager over
  -- the same stored keys, resumed, new after the timeout or taken over from another domain, it has
  -- the dimensions of the session before and the same user, an empty user id counting as none.
  pub get_or_create_session-Reach :
      (m n : SessionManager) (s : Session)
      → Reach m
      → Reach n
      → m.session ≡ some s
      → n.store ≡ m.store
      → let after = (get_or_create_session page clock uuid n).1 in
        (after.dimensions ≡ s.dimensions)
        × (truthy_or_null after.user_id ≡ truthy_or_null s.user_id)
  get_or_create_session-Reach m n s r q e k =
      let before = session_keys m s (Reach-IsSound m r) e in
      let after = get_or_create_session-HasKeysOf n (Reach-IsSound n q).same_keys in
      (after.0 ∙ ap load_dimensions k ∙ before.0, after.1 ∙ ap load_user_id k ∙ before.1)

  create_session-Leaves :
      (now : ℕ) (id : String) (m : SessionManager) → Leaves m (create_session page now id m)
  unfolding create_session save_session
  create_session-Leaves now id m = record { stored = refl; input = refl; timeout = refl }

  resume_or_create-Leaves :
      (o : Option Session) (m : SessionManager) → Leaves m (resume_or_create page clock uuid o m)
  unfolding save_session
  resume_or_create-Leaves none m = create_session-Leaves clock.create uuid m
  resume_or_create-Leaves (some s) m =
      elim (Bool-cases (is_session_expired m.config.session_timeout clock.check s)) [
        | inl late ↦ rw late (create_session-Leaves clock.create uuid m)
        | inr timely ↦ rw timely (record { stored = refl; input = refl; timeout = refl })
      ]

  after_cross_domain-none :
      (o : Option CrossDomainInput) (m : SessionManager)
      → o ≡ none
      → after_cross_domain page clock uuid o m ≡ resume_or_create page clock uuid m.store.session m
  after_cross_domain-none none m e = refl
  after_cross_domain-none (some input) m e = absurd (ground arith)

  resume_or_create-some :
      (o : Option Session) (s : Session) (m : SessionManager)
      → o ≡ some s
      → (resume_or_create page clock uuid o m).1.id
        ≡ (if ltb m.config.session_timeout (clock.check - s.last_active_at) then uuid else s.id)
  unfolding is_session_expired create_session fresh_session
  resume_or_create-some none s m e = absurd (ground arith)
  resume_or_create-some (some t) s m e =
      rw (← some_inj t s e)
        (elim (Bool-cases (ltb m.config.session_timeout (clock.check - t.last_active_at))) [
          | inl late ↦ rw late refl
          | inr timely ↦ rw timely refl
        ])

-- Of two calls in a row without an input from another domain, the second goes on with the session
-- of the first one exactly when no more than the timeout has passed since that was last active,
-- and else starts one with the generated id.
pub get_or_create_session-twice :
    (page page' : Page) (clock clock' : Clock) (uuid uuid' : String) (m : SessionManager)
    → m.cross_domain_input ≡ none
    → let (m1, s1) = get_or_create_session page clock uuid m in
      (get_or_create_session page' clock' uuid' m1).1.id
      ≡ (if ltb m.config.session_timeout (clock'.check - s1.last_active_at) then uuid' else s1.id)
unfolding get_or_create_session
get_or_create_session-twice page page' clock clock' uuid uuid' m e =
    let first = get_or_create_session page clock uuid m in
    let left : Leaves m first =
      rw (after_cross_domain-none page clock uuid m.cross_domain_input m e)
        (resume_or_create-Leaves page clock uuid m.store.session m) in
    ap (λ r. r.1.id)
      (after_cross_domain-none page' clock' uuid' first.0.cross_domain_input first.0
        (left.input ∙ e))
    ∙ resume_or_create-some page' clock' uuid' first.0.store.session first.1 first.0 left.stored
    ∙ ap
        (λ (c : Config).
          if ltb c.session_timeout (clock'.check - first.1.last_active_at)
          then uuid'
          else first.1.id)
        left.timeout
