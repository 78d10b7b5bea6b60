-- ===== src/Sdk/SessionState/Persistence.antt =====
-- persist() and restore() of sdk/src/core/session-state.ts, over the one `sessionStorage` item that
-- they use. The item's text and JSON are the browser's: a parameter, with their round trip.
use staminads.Common.{
  ℕ, String, ◌≡◌, ◌≢◌, Bool, true, false, Option, none, some, List, [], arith, if◌then◌else◌,
  str_eq, eq_iff, str_eq-false,
}
use staminads.Sdk.SessionState.{Action, SessionState}

-- The object that is written; a property that is missing or null when it is read back is `none`.
pub record StoredState : Type 0 where
  pub session_id : Option String
  pub actions : Option (List Action)
  pub current_page_index : Option ℕ

-- JSON.stringify and JSON.parse on that object. `parse` is `none` where JSON.parse throws.
pub record Json : Type 1 where
  pub Text : Type 0
  pub stringify : StoredState → Text
  pub parse : Text → Option StoredState
  pub is_empty : Text → Bool
  pub parse-stringify : (d : StoredState) → parse (stringify d) ≡ some d
  pub is_empty-stringify : (d : StoredState) → is_empty (stringify d) ≡ false

abbrev pub snapshot : SessionState → StoredState
snapshot s = record {
  session_id = some s.session_id;
  actions = some s.actions;
  current_page_index = s.current_page_index;
}

-- `data.session_id !== this.sessionId` is false
abbrev pub is_own : Option String → String → Bool
is_own none id = false
is_own (some j) id = str_eq j id

abbrev pub stored_actions : Option (List Action) → List Action
stored_actions none = []
stored_actions (some actions) = actions

module _ (j : Json) where
  open j use {Text, stringify, parse, is_empty, parse-stringify, is_empty-stringify}

  -- `writable` is false where setItem throws (quota, private mode), which persist() ignores.
  unfoldable pub persist : Bool → SessionState → Option Text → Option Text
  persist writable s item = if writable then some (stringify (snapshot s)) else item

  abbrev adopt : StoredState → SessionState → Option Text → SessionState × Option Text
  adopt d s item =
      if is_own d.session_id s.session_id
      then (
        record s { actions = stored_actions d.actions; current_page_index = d.current_page_index },
        item,
      )
      else (s, none)

  unfoldable pub restore : SessionState → Option Text → SessionState × Option Text
  restore s none = (s, none)
  restore s (some text) =
      if is_empty text
      then (s, some text)
      else elim (parse text) [ none ↦ (s, none) | some d ↦ adopt d s (some text) ]

  -- What was persisted is restored by a new object of the same session: the same actions and the
  -- same current page, all else the object's own, and the item stays in the storage.
  pub restore-persist :
      (s fresh : SessionState) (item : Option Text)
      → fresh.session_id ≡ s.session_id
      → restore fresh (persist true s item) ≡ (
        record fresh { actions = s.actions; current_page_index = s.current_page_index },
        persist true s item,
      )
  unfolding persist restore
  restore-persist s fresh item same =
      rw (is_empty-stringify (snapshot s), parse-stringify (snapshot s))
        (ground (arith, eq_iff s.session_id fresh.session_id))

  -- An object of another session takes nothing over, and clears the item.
  restore-persist_other :
      (s other : SessionState) (item : Option Text)
      → s.session_id ≢ other.session_id
      → restore other (persist true s item) ≡ (other, none)
  unfolding persist restore
  restore-persist_other s other item differ =
      rw (is_empty-stringify (snapshot s), parse-stringify (snapshot s))
        (rw (str_eq-false s.session_id other.session_id differ))
