-- ===== src/Sdk/SessionState/Lifetime.antt =====
-- Any sequence of calls on a SessionState (sdk/src/core/session-state.ts) with a clock that does
-- not run backwards, as a relation.
use staminads.Common.{ℕ, ◌≤◌, String, ◌≡◌, true, Option, arith}
use staminads.Common.Dict.{Dict}
use staminads.Common.Int.{ℤ}
use staminads.Sdk.SessionState.{
  Instant, SessionState, SessionStateConfig, new, set_focus_time_getter, add_pageview,
  update_scroll, add_goal, build_payload, finalize_for_unload, PayloadOptions,
}
use staminads.Sdk.SessionState.Invariant.{IsValid}
use staminads.Sdk.SessionState.Preservation.{
  new-IsValid, add_pageview-IsValid, update_scroll-IsValid, add_goal-IsValid,
  finalize_for_unload-IsValid, build_payload-IsValid,
}
use staminads.Sdk.SessionState.Persistence.{Json, persist, restore, restore-persist}

-- One call. The numbers are the latest clock reading before and after it.
pub data Step : ℕ → SessionState → ℕ → SessionState → Type 1 where
  set_getter :
      {l : ℕ} {s : SessionState} (getter : Instant → ℕ)
      → Step l s l (set_focus_time_getter getter s)
  page :
      {l n : ℕ} {s : SessionState} (path : String) (t : Instant)
      → l ≤ n
      → t.now ≡ n
      → Step l s n (add_pageview path t s)
  scroll : {l : ℕ} {s : SessionState} (percent : ℤ) → Step l s l (update_scroll percent s)
  add :
      {l : ℕ} {s : SessionState} (name : String) (value : Option ℤ)
      (properties : Option (Dict String)) (now : ℕ)
      → Step l s l (add_goal name value properties now s).0
  send :
      {l n : ℕ} {s : SessionState} {A : Type 0} (sdk_version : String) (attributes : A)
      (options : Option PayloadOptions) (t : Instant) (updated_at : ℕ)
      → l ≤ n
      → t.now ≡ n
      → Step l s n (build_payload sdk_version attributes options t updated_at s).0
  unload :
      {l n : ℕ} {s : SessionState} (t : Instant)
      → l ≤ n
      → t.now ≡ n
      → Step l s n (finalize_for_unload t s)
  -- A new page load of the same session, with what the last one persisted.
  reload :
      {l : ℕ} {s : SessionState} (j : Json) (config : SessionStateConfig)
      (item : Option (Json.Text j))
      → config.session_id ≡ s.session_id
      → Step l s l (restore j (new config) (persist j true s item)).0

-- Any number of calls, from a state `s` with the clock at `l`.
pub data Steps (l : ℕ) (s : SessionState) : ℕ → SessionState → Type 1 where
  here : Steps l s l s
  next : {n m : ℕ} {t u : SessionState} → Steps l s n t → Step n t m u → Steps l s m u

-- The states of a session that began with `new config`.
abbrev pub Reach : SessionStateConfig → ℕ → SessionState → Type 1
Reach config = Steps 0 (new config)

at_now : {n : ℕ} {u : SessionState} (t : Instant) → t.now ≡ n → IsValid t.now u → IsValid n u
at_now {u} t e v = rw e at v

reload-IsValid :
    (l : ℕ) (s : SessionState) (j : Json) (config : SessionStateConfig)
    (item : Option (Json.Text j))
    → config.session_id ≡ s.session_id
    → IsValid l s
    → IsValid l (restore j (new config) (persist j true s item)).0
reload-IsValid l s j config item same v =
    rw (restore-persist j s (new config) item same) (record {
      bounded = v.bounded;
      current = v.current;
      increasing = v.increasing;
      fits = v.fits;
    })

pub Step-IsValid : {l n : ℕ} {s u : SessionState} → Step l s n u → IsValid l s → IsValid n u
Step-IsValid (set_getter getter) v = record {
  bounded = v.bounded;
  current = v.current;
  increasing = v.increasing;
  fits = v.fits;
}
Step-IsValid (page path t h e) v = at_now t e (add_pageview-IsValid path t (omega arith) v)
Step-IsValid (scroll percent) v = update_scroll-IsValid percent v
Step-IsValid (add name value properties now) v = add_goal-IsValid name value properties now v
Step-IsValid (send sdk_version attributes options t updated_at h e) v =
    at_now t e (build_payload-IsValid sdk_version attributes options t updated_at (omega arith) v)
Step-IsValid (unload t h e) v = at_now t e (finalize_for_unload-IsValid t (omega arith) v)
Step-IsValid (reload {l} {s} j config item same) v = reload-IsValid l s j config item same v

pub Steps-IsValid :
    {l : ℕ} {s : SessionState} {n : ℕ} {u : SessionState}
    → IsValid l s
    → Steps l s n u
    → IsValid n u
Steps-IsValid v here = v
Steps-IsValid v (next r step) = Step-IsValid step (Steps-IsValid v r)

-- In every state that a session can reach while the browser's clock (Date.now) never runs
-- backwards, from one call to the next and through reloads, the list is within its bound, the
-- current page is a pageview of the list, the pageviews' numbers grow along the list, and each
-- action has the form of `Fits`. Without the condition on the clock a page may be left before it
-- was entered, which `Fits` excludes.
pub Reach-IsValid :
    (config : SessionStateConfig) (l : ℕ) (s : SessionState) → Reach config l s → IsValid l s
Reach-IsValid config l s r = Steps-IsValid (new-IsValid config) r
