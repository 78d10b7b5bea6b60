-- ===== src/Api/Filters/Compiler/Descending.antt =====
-- Sorting filters of different priorities (api/src/filters/lib/filter-compiler.ts).
use staminads.Common.{
  ℕ, ◌≤◌, ◌<◌, ◌≢◌, Bool, true, false, List, [], ◌∷◌, arith, All, any, ◌||◌, ◌≡◌, refl, ap, ◌∙◌,
  leb, Bool-cases, inl, inr, leb→le,
}
use staminads.Api.Filters.Evaluator.{FilterDefinition, insert_by_priority, sort_by_priority}

-- Every filter has a higher priority than those that follow.
abbrev pub IsDescending : List FilterDefinition → Type 0
IsDescending [] = Unit
IsDescending (f ∷ rest) = All (λ g. g.priority < f.priority) rest × IsDescending rest

abbrev pub IsDistinct : List FilterDefinition → Type 0
IsDistinct [] = Unit
IsDistinct (f ∷ rest) = All (λ g. f.priority ≢ g.priority) rest × IsDistinct rest

module _ (P : FilterDefinition → Type 0) where
  All-insert_by_priority :
      (f : FilterDefinition) (fs : List FilterDefinition)
      → P f
      → All P fs
      → All P (insert_by_priority f fs)
  unfolding insert_by_priority
  All-insert_by_priority f [] h _ = (h, tt)
  All-insert_by_priority f (g ∷ rest) h (k, ks) = elim (Bool-cases (leb g.priority f.priority)) [
    | inl first ↦ rw first (h, (k, ks))
    | inr later ↦ rw later (k, All-insert_by_priority f rest h ks)
  ]

  pub All-sort_by_priority : (fs : List FilterDefinition) → All P fs → All P (sort_by_priority fs)
  unfolding sort_by_priority
  All-sort_by_priority [] _ = tt
  All-sort_by_priority (f ∷ rest) (h, hs) =
      All-insert_by_priority f _ h (All-sort_by_priority rest hs)

or_swap : (a b c : Bool) → (a || (b || c)) ≡ (b || (a || c))
or_swap true b c = ground arith
or_swap false b c = refl

strict : (a b : ℕ) → a ≤ b → b ≢ a → a < b
strict a b l n = ground arith

All-map_below :
    (p q : ℕ) (fs : List FilterDefinition)
    → p ≤ q
    → All (λ g. g.priority < p) fs
    → All (λ g. g.priority < q) fs
All-map_below p q [] l _ = tt
All-map_below p q (g ∷ rest) l (h, hs) = (omega arith, All-map_below p q rest l hs)

insert_by_priority-IsDescending :
    (f : FilterDefinition) (fs : List FilterDefinition)
    → All (λ g. f.priority ≢ g.priority) fs
    → IsDescending fs
    → IsDescending (insert_by_priority f fs)
unfolding insert_by_priority
insert_by_priority-IsDescending f [] _ _ = (tt, tt)
insert_by_priority-IsDescending f (g ∷ rest) (d, ds) (h, hs) =
    elim (Bool-cases (leb g.priority f.priority)) [
      | inl first ↦
          let l : g.priority ≤ f.priority = leb→le g.priority f.priority first in
          rw first (
            (strict g.priority f.priority l d, All-map_below g.priority f.priority rest l h),
            (h, hs),
          )
      | inr later ↦ rw later (
        All-insert_by_priority (λ k. k.priority < g.priority) f rest (ground arith) h,
        insert_by_priority-IsDescending f rest ds hs,
      )
    ]

pub sort_by_priority-IsDescending :
    (fs : List FilterDefinition) → IsDistinct fs → IsDescending (sort_by_priority fs)
unfolding sort_by_priority
sort_by_priority-IsDescending [] _ = tt
sort_by_priority-IsDescending (f ∷ rest) (d, ds) =
    insert_by_priority-IsDescending f _ (All-sort_by_priority (λ g. f.priority ≢ g.priority) rest d)
      (sort_by_priority-IsDescending rest ds)

any-insert_by_priority :
    (p : FilterDefinition → Bool) (f : FilterDefinition) (fs : List FilterDefinition)
    → any p (insert_by_priority f fs) ≡ (p f || any p fs)
unfolding insert_by_priority
any-insert_by_priority p f [] = refl
any-insert_by_priority p f (g ∷ rest) = elim (Bool-cases (leb g.priority f.priority)) [
  | inl first ↦ rw first refl
  | inr later ↦ rw (later, any-insert_by_priority p f rest) (or_swap (p g) (p f) _)
]

pub any-sort_by_priority :
    (p : FilterDefinition → Bool) (fs : List FilterDefinition)
    → any p (sort_by_priority fs) ≡ any p fs
unfolding sort_by_priority
any-sort_by_priority p [] = refl
any-sort_by_priority p (f ∷ rest) =
    any-insert_by_priority p f _ ∙ ap (λ b. p f || b) (any-sort_by_priority p rest)
