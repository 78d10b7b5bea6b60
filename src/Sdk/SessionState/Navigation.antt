-- ===== src/Sdk/SessionState/Navigation.antt =====
-- What addPageview of sdk/src/core/session-state.ts does to the pages of a session.
use staminads.Common.{
  ℕ, zero, suc, ◌+◌, ◌≤◌, ◌<◌, String, ◌≡◌, ◌≢◌, refl, some, List, [], ◌∷◌, ◌++◌, arith, All,
  length, length-append, modify, get_elem?, get_elem?-modify_ne, get_elem?-append_left,
  get_elem?-append_length, inl, inr, Option-cases, leb, false, ltb, if◌then◌else◌, ◌-◌,
}
use staminads.Sdk.SessionState.{
  Action, pageview, goal, Instant, SessionState, page_number, max_actions, close_action,
  new_pageview, focus_ms, finalize_current_page_duration, max_page_number, get_next_page_number,
  add_pageview, get_current_page,
}
use staminads.Sdk.SessionState.PageNumbers.{max_page_number-All}
use staminads.Sdk.SessionState.Preservation.{length-finalize_current_page_duration}

max_page_number-modify :
    (acc : ℕ) (actions : List Action) (i d e : ℕ)
    → max_page_number acc (modify actions i (close_action d e)) ≡ max_page_number acc actions
unfolding max_page_number
max_page_number-modify acc [] i d e = refl
max_page_number-modify acc (pageview p ∷ rest) zero d e = refl
max_page_number-modify acc (goal g ∷ rest) zero d e = refl
max_page_number-modify acc (a ∷ rest) (suc i) d e =
    max_page_number-modify (if ltb acc (page_number a) then page_number a else acc) rest i d e

get_next_page_number-finalize :
    (t : Instant) (e : ℕ) (s : SessionState)
    → get_next_page_number (finalize_current_page_duration t e s) ≡ get_next_page_number s
unfolding get_next_page_number finalize_current_page_duration
get_next_page_number-finalize t e s = elim (Option-cases s.current_page_index) [
  | inl gone ↦ rw (gone, finalize_current_page_duration)
  | inr (i, here) ↦
      rw (here, finalize_current_page_duration)
        (rw (max_page_number-modify 0 s.actions i (focus_ms s t) e))
]

get_elem?-finalize :
    (t : Instant) (e : ℕ) (s : SessionState) (i : ℕ)
    → s.current_page_index ≢ some i
    → get_elem? (finalize_current_page_duration t e s).actions i ≡ get_elem? s.actions i
unfolding finalize_current_page_duration
get_elem?-finalize t e s i other = elim (Option-cases s.current_page_index) [
  | inl gone ↦ rw (gone, finalize_current_page_duration)
  | inr (j, here) ↦
      rw (here, finalize_current_page_duration)
        (get_elem?-modify_ne s.actions j i _ (λ same. other (rw (← same) here)))
]

lt_of_le_pred :
    (n : ℕ) (actions : List Action)
    → All (λ a. page_number a ≤ n) actions
    → All (λ a. page_number a < n + 1) actions
lt_of_le_pred n [] _ = tt
lt_of_le_pred n (a ∷ rest) (h, hs) = (omega arith, lt_of_le_pred n rest hs)

module _ (path : String) (t : Instant) (s : SessionState)
    (room : length s.actions < max_actions) where
  open_list : leb max_actions (length s.actions) ≡ false
  open_list = ground arith

  -- With room in the list, the page that is entered becomes the current one: it has the given path,
  -- entered now, with no scroll yet, and a number above that of every earlier action.
  get_current_page-add_pageview :
      (get_current_page (add_pageview path t s)
        ≡ some (record {
          path = path;
          page_number = get_next_page_number s;
          entered_at = t.now;
          scroll = 0;
        }))
      × All (λ a. page_number a < get_next_page_number s) s.actions
  unfolding add_pageview get_current_page
  get_current_page-add_pageview =
      let closed = finalize_current_page_duration t t.now s in
      let a = pageview (new_pageview path (get_next_page_number closed) t.now) in
      let last : length (closed.actions ++ a ∷ []) - 1 ≡ length closed.actions =
        omega (arith, length-append {0} closed.actions (a ∷ [])) in
      (
        rw open_list (
            rw last (
              rw (get_elem?-append_length closed.actions a [])
                (rw (get_next_page_number-finalize t t.now s)))),
        unfold get_next_page_number in lt_of_le_pred _ s.actions (max_page_number-All 0 s.actions),
      )

  -- It adds one action at the end, and changes no other than the page that was current.
  get_elem?-add_pageview :
      (i : ℕ)
      → i < length s.actions
      → s.current_page_index ≢ some i
      → (length (add_pageview path t s).actions ≡ length s.actions + 1)
        × (get_elem? (add_pageview path t s).actions i ≡ get_elem? s.actions i)
  unfolding add_pageview
  get_elem?-add_pageview i h other =
      let closed = finalize_current_page_duration t t.now s in
      let a = pageview (new_pageview path (get_next_page_number closed) t.now) in
      let len = length-finalize_current_page_duration t t.now s in
      rw open_list (
        omega (arith, len, length-append {0} closed.actions (a ∷ [])),
        rw (get_elem?-append_left closed.actions (a ∷ []) i (omega (arith, len)))
            (get_elem?-finalize t t.now s i other),
      )
