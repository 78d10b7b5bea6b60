-- ===== src/Api/SessionHandler/Event/Tokens.antt =====
-- The deduplication tokens of events (api/src/events/session-payload.handler.ts) for the actions
-- that a session of the SDK sends (sdk/src/core/session-state.ts).
use Prim.Native.Char.{code}
use Prim.Native.String
use text.Mathlib.TextLemmas.{
  cons-append, append_cancel_left, length-append, append_inj, head-eq_of_cons-eq,
  tail-eq_of_cons-eq,
}
use staminads.Common.{
  ℕ, zero, suc, ◌<◌, String, some, List, [], ◌∷◌, get_elem?, map, all, true, ◌≡◌, ◌≢◌, refl, sym,
  ◌∙◌, ap, arith,
}
use staminads.Common.Dict.{get, get-assign, last_value}
use staminads.Common.Int.{ℤ}
use staminads.Common.Texts.{◌<>◌, decimal, decimal_inj}
use staminads.Sdk.SessionState.{
  PageviewAction, Action, pageview, goal, SessionState, SessionStateConfig,
}
use staminads.Sdk.SessionState.PageNumbers.{IsIncreasing}
use staminads.Sdk.SessionState.Lifetime.{Reach, Reach-IsValid}
use staminads.Api.SessionHandler.Event.{
  TrackingEvent, string, dedup_token, deserialize_actions, next_path,
}
use staminads.Api.SessionHandler.Event.Dates.{
  has_dates, dated_event, dated_events, deserialize_actions-some,
}

dedup_token-dated_event :
    (a : Action) (base : TrackingEvent) (session_id previous_path : String) (skew_ms : ℤ)
    → get (dated_event a base session_id previous_path skew_ms) "dedup_token"
      ≡ some (string (dedup_token session_id a))
unfolding last_value
dedup_token-dated_event (pageview p) base session_id previous_path skew_ms =
    get-assign base _ "dedup_token"
dedup_token-dated_event (goal g) base session_id previous_path skew_ms =
    get-assign base _ "dedup_token"

map-dated_events :
    (base : TrackingEvent) (session_id : String) (skew_ms : ℤ) (previous_path : String)
    (actions : List Action)
    → map
        (λ event. get event "dedup_token")
        (dated_events base session_id skew_ms previous_path actions)
      ≡ map (λ a. some (string (dedup_token session_id a))) actions
map-dated_events base session_id skew_ms previous_path [] = refl
map-dated_events base session_id skew_ms previous_path (a ∷ rest) =
    rw (dedup_token-dated_event a base session_id previous_path skew_ms) (
      ap (λ others. some (string (dedup_token session_id a)) ∷ others)
        (map-dated_events base session_id skew_ms (next_path previous_path a) rest))

-- What a retry may change of an event leaves its token: if the times of the actions are dates when
-- they are corrected, the actions give events, and the tokens of the events are those of the
-- actions, one for each and in their order, whatever the clock skew, the attributes and the time of
-- receipt are.
pub map-deserialize_actions :
    (base : TrackingEvent) (session_id : String) (skew_ms : ℤ) (previous_path : String)
    (actions : List Action)
    → all (has_dates skew_ms) actions ≡ true
    → (events : List TrackingEvent) × (deserialize_actions base session_id skew_ms previous_path
          actions
        ≡ some events)
      × (map (λ event. get event "dedup_token") events
          ≡ map (λ a. some (string (dedup_token session_id a))) actions)
map-deserialize_actions base session_id skew_ms previous_path actions dates = (
  dated_events base session_id skew_ms previous_path actions,
  deserialize_actions-some base session_id skew_ms previous_path actions dates,
  map-dated_events base session_id skew_ms previous_path actions,
)

-- When two actions are one for the server.
abbrev pub IsSameAction : Action → Action → Type 0
IsSameAction (pageview p) (pageview q) = p.page_number ≡ q.page_number
IsSameAction (goal g) (goal h) =
    String.count (decimal g.timestamp) ≡ String.count (decimal h.timestamp)
    → (g.name ≡ h.name) × (g.timestamp ≡ h.timestamp)
IsSameAction (pageview p) (goal g) = ⊥
IsSameAction (goal g) (pageview p) = ⊥

different_kinds : (s t : String) → "_pv_" <> s ≢ "_goal_" <> t
different_kinds s t e =
    let p_s = cons-append "_" "pv_" s ∙ ap (λ r. String.◌∷◌ "_" r) (cons-append "p" "v_" s) in
    let g_t = cons-append "_" "goal_" t ∙ ap (λ r. String.◌∷◌ "_" r) (cons-append "g" "oal_" t) in
    let letters = ap code (head-eq_of_cons-eq (tail-eq_of_cons-eq (sym p_s ∙ e ∙ g_t))) in
    absurd (omega (arith, letters))

same_goal :
    (name other : String) (t u : ℕ)
    → name <> "_" <> decimal t ≡ other <> "_" <> decimal u
    → String.count (decimal t) ≡ String.count (decimal u)
    → (name ≡ other) × (t ≡ u)
same_goal name other t u e h =
    let total = ap String.count e in
    let (n, rest) = append_inj e (
      omega (
        arith,
        total,
        length-append name ("_" <> decimal t),
        length-append other ("_" <> decimal u),
        length-append "_" (decimal t),
        length-append "_" (decimal u),
      )) in
    (n, decimal_inj t u (append_cancel_left "_" (decimal t) (decimal u) rest))

-- Two actions of a session with one token are one action: pageviews with the same number, or goals
-- of the same name and time, when their times have as many digits as each other.
pub dedup_token_inj :
    (session_id : String) (a b : Action)
    → dedup_token session_id a ≡ dedup_token session_id b
    → IsSameAction a b
unfolding dedup_token
dedup_token_inj session_id (pageview p) (pageview q) e =
    decimal_inj p.page_number q.page_number
      (append_cancel_left "_pv_" _ _ (append_cancel_left session_id _ _ e))
dedup_token_inj session_id (goal g) (goal h) e =
    same_goal g.name h.name g.timestamp h.timestamp
      (append_cancel_left "_goal_" _ _ (append_cancel_left session_id _ _ e))
dedup_token_inj session_id (pageview p) (goal g) e =
    different_kinds _ _ (append_cancel_left session_id _ _ e)
dedup_token_inj session_id (goal g) (pageview p) e =
    different_kinds _ _ (sym (append_cancel_left session_id _ _ e))

IsIncreasing-above :
    (low : ℕ) (actions : List Action) (i : ℕ) (p : PageviewAction)
    → IsIncreasing low actions
    → get_elem? actions i ≡ some (pageview p)
    → low < p.page_number
IsIncreasing-above low [] i p inc e = absurd (ground arith)
IsIncreasing-above low (pageview x ∷ rest) zero p (up, inc) e = ground arith
IsIncreasing-above low (pageview x ∷ rest) (suc i) p (up, inc) e =
    omega (arith, IsIncreasing-above x.page_number rest i p inc e)
IsIncreasing-above low (goal g ∷ rest) zero p inc e = absurd (ground arith)
IsIncreasing-above low (goal g ∷ rest) (suc i) p inc e = IsIncreasing-above low rest i p inc e

IsIncreasing-lt :
    (low : ℕ) (actions : List Action) (i j : ℕ) (p q : PageviewAction)
    → IsIncreasing low actions
    → i < j
    → get_elem? actions i ≡ some (pageview p)
    → get_elem? actions j ≡ some (pageview q)
    → p.page_number < q.page_number
IsIncreasing-lt low [] i j p q inc h e f = absurd (ground arith)
IsIncreasing-lt low actions i zero p q inc h e f = absurd (omega arith)
IsIncreasing-lt low (pageview x ∷ rest) zero (suc j) p q (up, inc) h e f =
    let above = IsIncreasing-above x.page_number rest j q inc f in ground arith
IsIncreasing-lt low (pageview x ∷ rest) (suc i) (suc j) p q (up, inc) h e f =
    IsIncreasing-lt x.page_number rest i j p q inc (omega arith) e f
IsIncreasing-lt low (goal g ∷ rest) zero (suc j) p q inc h e f = absurd (ground arith)
IsIncreasing-lt low (goal g ∷ rest) (suc i) (suc j) p q inc h e f =
    IsIncreasing-lt low rest i j p q inc (omega arith) e f

-- The pageviews that a session of the SDK has reached, with a clock that does not run backwards, all
-- have different tokens.
pub dedup_token-Reach :
    (config : SessionStateConfig) (l : ℕ) (s : SessionState) (i j : ℕ) (p q : PageviewAction)
    → Reach config l s
    → i < j
    → get_elem? s.actions i ≡ some (pageview p)
    → get_elem? s.actions j ≡ some (pageview q)
    → dedup_token s.session_id (pageview p) ≢ dedup_token s.session_id (pageview q)
dedup_token-Reach config l s i j p q r h e f same =
    let below = IsIncreasing-lt 0 s.actions i j p q (Reach-IsValid config l s r).increasing h e f in
    let equal = dedup_token_inj s.session_id (pageview p) (pageview q) same in absurd (omega arith)
