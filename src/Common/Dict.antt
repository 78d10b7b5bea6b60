-- ===== src/Common/Dict.antt =====
-- The insertion-ordered dictionaries of JavaScript (`Map`, plain objects used as records) with
-- text keys: a write to a key that is there keeps its place, a new key goes last.
use Prim.Native.String.{String}
use mathlib.Core.Path.{◌≡◌, refl, ap, ◌∙◌}
use mathlib.Core.Bool.{Bool, true, false}
use mathlib.Core.Option.{Option, none, some}
use mathlib.Core.List.{List, [], ◌∷◌, ◌++◌, map}
use mathlib.Core.Logic.{inl, inr}
use native.Mathlib.Omega.{arith}
use text.Mathlib.Text.{◌==◌ as str_eq}
use text.Mathlib.TextEquality.{eq_iff}
use text.Mathlib.TextPositions.{eq_refl}
use staminads.Common.Tests.{Bool-cases, if◌then◌else◌}

abbrev pub Dict {ℓ} : Type ℓ → Type ℓ
Dict V = List (String × V)

abbrev pub is_present {ℓ} : {V : Type ℓ} → Option V → Bool
is_present none = false
is_present (some _) = true

module _ {ℓ} {V : Type ℓ} where
  -- `m.get(key)`, `m[key]`
  unfoldable pub get : Dict V → String → Option V
  get [] key = none
  get ((name, value) ∷ more) key = if str_eq name key then some value else get more key

  -- `m.set(key, v)`, `m[key] = v`
  unfoldable pub put : Dict V → String → V → Dict V
  put [] key v = (key, v) ∷ []
  put ((name, old) ∷ more) key v =
      if str_eq name key then (name, v) ∷ more else (name, old) ∷ put more key v

  -- `m.delete(key)`
  unfoldable pub remove : Dict V → String → Dict V
  remove [] key = []
  remove ((name, value) ∷ more) key =
      let others = remove more key in if str_eq name key then others else (name, value) ∷ others

  -- `m.has(key)`, `key in m`
  abbrev pub has : Dict V → String → Bool
  has m key = is_present (get m key)

  abbrev pub keys : Dict V → List String
  keys m = map (λ entry. entry.0) m

  pub get-put :
      (m : Dict V) (key other : String) (v : V)
      → get (put m key v) other ≡ (if str_eq key other then some v else get m other)
  unfolding get put
  get-put [] key other v = refl
  get-put ((name, old) ∷ more) key other v =
      ground (arith, get-put more key other v, eq_iff name key, eq_iff name other, eq_iff key other)

  pub get-remove :
      (m : Dict V) (key other : String)
      → get (remove m key) other ≡ (if str_eq key other then none else get m other)
  unfolding get remove
  get-remove [] key other = ground arith
  get-remove ((name, value) ∷ more) key other =
      ground
        (arith, get-remove more key other, eq_iff name key, eq_iff name other, eq_iff key other)

  pub get-put_self : (m : Dict V) (key : String) (v : V) → get (put m key v) key ≡ some v
  get-put_self m key v = rw get-put (rw (eq_refl key))

  pub get-put_other :
      (m : Dict V) (key other : String) (v : V)
      → str_eq key other ≡ false
      → get (put m key v) other ≡ get m other
  get-put_other m key other v e = rw get-put (rw e)

  pub get-remove_self : (m : Dict V) (key : String) → get (remove m key) key ≡ none
  get-remove_self m key = rw get-remove (rw (eq_refl key))

  pub get-remove_other :
      (m : Dict V) (key other : String)
      → str_eq key other ≡ false
      → get (remove m key) other ≡ get m other
  get-remove_other m key other e = rw get-remove (rw e)

  pub get-append :
      (m n : Dict V) (key : String) (v : V) → get m key ≡ some v → get (m ++ n) key ≡ some v
  unfolding get
  get-append [] n key v h = absurd (ground arith)
  get-append ((name, value) ∷ more) n key v h = elim (Bool-cases (str_eq name key)) [
    | inl same ↦ ground arith
    | inr other ↦ let ih = get-append more n key v (ground arith) in ground arith
  ]

  -- Only the entries whose key passes a test.
  abbrev pub only : (String → Bool) → Dict V → Dict V
  only q [] = []
  only q ((name, value) ∷ more) =
      let others = only q more in if q name then (name, value) ∷ others else others

  pub get-only :
      (q : String → Bool) (m : Dict V) (key : String)
      → get (only q m) key ≡ (if q key then get m key else none)
  unfolding get
  get-only q [] key = ground arith
  get-only q ((name, value) ∷ more) key = ground (arith, get-only q more key, eq_iff name key)

  -- `Object.assign(m, more)`, `{ ...m, … }`
  unfoldable pub assign : Dict V → Dict V → Dict V
  assign m [] = m
  assign m ((key, v) ∷ more) = assign (put m key v) more

  -- The last value that the entries give to a key, or another.
  unfoldable pub last_value : Dict V → String → Option V → Option V
  last_value [] key other = other
  last_value ((name, v) ∷ more) key other =
      last_value more key (if str_eq name key then some v else other)

  pub get-assign :
      (m more : Dict V) (key : String) → get (assign m more) key ≡ last_value more key (get m key)
  unfolding assign last_value
  get-assign m [] key = refl
  get-assign m ((name, v) ∷ more) key =
      get-assign (put m name v) more key ∙ ap (last_value more key) (get-put m name key v)
