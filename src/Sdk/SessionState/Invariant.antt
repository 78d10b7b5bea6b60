-- ===== src/Sdk/SessionState/Invariant.antt =====
-- The invariant of a session's state between calls (sdk/src/core/session-state.ts), and the form that
-- the validation of the server asks of an action.
use staminads.Common.{
  ℕ, zero, suc, ◌≤◌, ◌≡◌, refl, ap, ltb, if◌then◌else◌, Option, none, some, List, [], ◌∷◌, arith,
  All, All-modify, inl, inr, Option-cases, length, length-modify, get_elem?, modify,
}
use staminads.Common.Int.{ℤ, pos, negsuc}
use staminads.Sdk.SessionState.{
  PageviewAction, Action, pageview, goal, Instant, SessionState, focus_ms, max_actions,
  close_action, raise_scroll, clamp_percent, finalize_current_page_duration,
}
use staminads.Sdk.SessionState.PageNumbers.{IsIncreasing, IsIncreasing-modify, KeepsNumber}

-- One action, at a time when the clock has reached `latest`.
abbrev pub Fits : ℕ → Action → Type 0
Fits latest (pageview p) =
    (1 ≤ p.page_number) × (p.scroll ≤ 100) × (p.entered_at ≤ p.exited_at) × (p.entered_at ≤ latest)
Fits latest (goal g) = 1 ≤ g.page_number

abbrev pub IsCurrent : List Action → Option ℕ → Type 0
IsCurrent actions none = Unit
IsCurrent actions (some i) = (p : PageviewAction) × (get_elem? actions i ≡ some (pageview p))

pub record IsValid (latest : ℕ) (s : SessionState) : Type 0 where
  pub bounded : length s.actions ≤ max_actions
  pub current : IsCurrent s.actions s.current_page_index
  pub increasing : IsIncreasing 0 s.actions
  pub fits : All (Fits latest) s.actions

Fits-later :
    {latest now : ℕ} (actions : List Action)
    → latest ≤ now
    → All (Fits latest) actions
    → All (Fits now) actions
Fits-later [] h _ = tt
Fits-later (pageview p ∷ rest) h (f, fs) = (omega arith, Fits-later rest h fs)
Fits-later (goal g ∷ rest) h (f, fs) = (f, Fits-later rest h fs)

pub IsValid-later :
    {latest now : ℕ} {s : SessionState} → latest ≤ now → IsValid latest s → IsValid now s
IsValid-later {s} h v = record {
  bounded = v.bounded;
  current = v.current;
  increasing = v.increasing;
  fits = Fits-later s.actions h v.fits;
}

-- A write through a reference to an action of the list, which keeps its kind and number.
pub record IsMild (now : ℕ) (f : Action → Action) : Type 0 where
  pub number : (a : Action) → KeepsNumber f a
  pub kind : (p : PageviewAction) → (q : PageviewAction) × (f (pageview p) ≡ pageview q)
  pub fit : (a : Action) → Fits now a → Fits now (f a)

modify-IsCurrent :
    (actions : List Action) (i j : ℕ) (f : Action → Action)
    → ((p : PageviewAction) → (q : PageviewAction) × (f (pageview p) ≡ pageview q))
    → IsCurrent actions (some j)
    → IsCurrent (modify actions i f) (some j)
modify-IsCurrent [] i j f k c = c
modify-IsCurrent (pageview q ∷ rest) zero zero f k c = let (q', e) = k q in (q', ap some e)
modify-IsCurrent (goal g ∷ rest) zero zero f k (p, e) = cc
modify-IsCurrent (a ∷ rest) zero (suc j) f k c = c
modify-IsCurrent (a ∷ rest) (suc i) zero f k c = c
modify-IsCurrent (a ∷ rest) (suc i) (suc j) f k c = modify-IsCurrent rest i j f k c

modify-IsCurrent? :
    (actions : List Action) (i : ℕ) (o : Option ℕ) (f : Action → Action)
    → ((p : PageviewAction) → (q : PageviewAction) × (f (pageview p) ≡ pageview q))
    → IsCurrent actions o
    → IsCurrent (modify actions i f) o
modify-IsCurrent? actions i none f k c = tt
modify-IsCurrent? actions i (some j) f k c = modify-IsCurrent actions i j f k c

pub modify-IsValid :
    {now : ℕ} {s : SessionState} (i : ℕ) (f : Action → Action)
    → IsMild now f
    → IsValid now s
    → IsValid now (record s { actions = modify s.actions i f })
modify-IsValid {now} {s} i f m v = record {
  bounded = omega (arith, length-modify {0} s.actions i f, v.bounded);
  current = modify-IsCurrent? s.actions i s.current_page_index f m.kind v.current;
  increasing = IsIncreasing-modify 0 s.actions i f m.number v.increasing;
  fits = All-modify (Fits now) s.actions i f v.fits m.fit;
}

close_action-KeepsNumber : (d e : ℕ) (a : Action) → KeepsNumber (close_action d e) a
close_action-KeepsNumber d e (pageview p) low rest h = h
close_action-KeepsNumber d e (goal g) low rest h = h

close_action-Fits : (d now : ℕ) (a : Action) → Fits now a → Fits now (close_action d now a)
close_action-Fits d now (pageview p) h = omega arith
close_action-Fits d now (goal g) h = h

pub close_action-IsMild : (d now : ℕ) → IsMild now (close_action d now)
close_action-IsMild d now = record {
  number = close_action-KeepsNumber d now;
  kind = λ p. (record p { duration = d; exited_at = now }, refl);
  fit = close_action-Fits d now;
}

pub clamp_percent-le : (z : ℤ) → clamp_percent z ≤ 100
clamp_percent-le (pos n) = ground arith
clamp_percent-le (negsuc n) = omega arith

raised : ℕ → PageviewAction → PageviewAction
raised c p = record p { scroll = if ltb p.scroll c then c else p.scroll }

raise_scroll-eq-raised :
    (c : ℕ) (p : PageviewAction) → raise_scroll c (pageview p) ≡ pageview (raised c p)
unfolding raised
raise_scroll-eq-raised c p = ground arith

raise_scroll-KeepsNumber : (c : ℕ) (a : Action) → KeepsNumber (raise_scroll c) a
raise_scroll-KeepsNumber c (pageview p) low rest h = ground arith
raise_scroll-KeepsNumber c (goal g) low rest h = h

raise_scroll-Fits : (c now : ℕ) (a : Action) → c ≤ 100 → Fits now a → Fits now (raise_scroll c a)
raise_scroll-Fits c now (pageview p) k h = ground arith
raise_scroll-Fits c now (goal g) k h = h

pub raise_scroll-IsMild : (c now : ℕ) → c ≤ 100 → IsMild now (raise_scroll c)
raise_scroll-IsMild c now h = record {
  number = raise_scroll-KeepsNumber c;
  kind = λ p. (raised c p, raise_scroll-eq-raised c p);
  fit = λ a. raise_scroll-Fits c now a h;
}

pub finalize_current_page_duration-IsValid :
    {latest : ℕ} {s : SessionState} (t : Instant)
    → latest ≤ t.now
    → IsValid latest s
    → IsValid t.now (finalize_current_page_duration t t.now s)
unfolding finalize_current_page_duration
finalize_current_page_duration-IsValid {s} t h v = elim (Option-cases s.current_page_index) [
  | inl e ↦ rw (e, finalize_current_page_duration) (IsValid-later h v)
  | inr (i, e) ↦
      rw (e, finalize_current_page_duration)
        (modify-IsValid i _ (close_action-IsMild (focus_ms s t) t.now) (IsValid-later h v))
]
