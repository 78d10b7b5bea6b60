-- ===== src/Sdk/SessionManager/UrlDimensions.antt =====
-- The dimensions of the URL over those of the session (sdk/src/core/session.ts).
use staminads.Common.{
  ℕ, String, ◌≡◌, refl, sym, ap, ◌∙◌, true, false, Option, none, some, [], ◌∷◌, arith, ◌==◌, str_eq,
  if◌then◌else◌, Bool-cases, inl, inr, some_inj,
}
use staminads.Sdk.SessionManager.Types.{
  CustomDimensions, put_dimension, lookup_dimension, truthy_or_null, is_truthy_option, Session,
}
use staminads.Sdk.SessionManager.{
  SessionManager, save_dimensions, if_session, get_dimension, fill_dimensions, apply_url_dimensions,
}

lookup_dimension-put_dimension :
    (d : CustomDimensions) (i k : ℕ) (v : String)
    → lookup_dimension (put_dimension d i v) k ≡ (if i == k then some v else lookup_dimension d k)
unfolding lookup_dimension put_dimension
lookup_dimension-put_dimension [] i k v = refl
lookup_dimension-put_dimension ((j, old) ∷ rest) i k v =
    ground (arith, lookup_dimension-put_dimension rest i k v)

-- The first value for `k` that is not empty.
abbrev pub first_filled : CustomDimensions → ℕ → Option String
first_filled [] k = none
first_filled ((i, v) ∷ rest) k =
    let later = first_filled rest k in
    if i == k then (if str_eq v "" then later else some v) else later

abbrev pub first_of : Option String → Option String → Option String
first_of none later = later
first_of (some v) later = some v

first_of-none : (o : Option String) → first_of o none ≡ o
first_of-none none = refl
first_of-none (some v) = refl

truthy_some :
    (o : Option String) → is_truthy_option o ≡ true → (v : String) × (truthy_or_null o ≡ some v)
truthy_some none h = absurd (ground arith)
truthy_some (some v) h = (v, ground arith)

truthy_none : (o : Option String) → is_truthy_option o ≡ false → truthy_or_null o ≡ none
truthy_none none h = refl
truthy_none (some v) h = ground arith

kept_there :
    (current : CustomDimensions) (i : ℕ) (v : String) (k : ℕ) (later : Option String)
    → is_truthy_option (lookup_dimension current i) ≡ true
    → first_of (truthy_or_null (lookup_dimension current k)) later
      ≡ first_of
          (truthy_or_null (lookup_dimension current k))
          (if i == k then (if str_eq v "" then later else some v) else later)
kept_there current i v k later h = elim (Bool-cases (i == k)) [
  | inl same ↦
      let e : i ≡ k = ground arith in
      let (w, there) = truthy_some (lookup_dimension current k) (rw e at h) in rw there refl
  | inr other ↦ rw other refl
]

filled_missing :
    (current : CustomDimensions) (i : ℕ) (v : String) (k : ℕ) (later : Option String)
    → is_truthy_option (lookup_dimension current i) ≡ false
    → first_of (truthy_or_null (lookup_dimension (put_dimension current i v) k)) later
      ≡ first_of
          (truthy_or_null (lookup_dimension current k))
          (if i == k then (if str_eq v "" then later else some v) else later)
filled_missing current i v k later h =
    rw (lookup_dimension-put_dimension current i k v) (elim (Bool-cases (i == k)) [
      | inl same ↦
          let e : i ≡ k = ground arith in
          rw (same, truthy_none (lookup_dimension current k) (rw e at h))
            (elim (Bool-cases (str_eq v "")) [
              | inl blank ↦ rw blank refl
              | inr given ↦ rw given refl
            ])
      | inr other ↦ rw other refl
    ])

fill_dimensions_lem :
    (found current : CustomDimensions) (k : ℕ)
    → truthy_or_null (lookup_dimension (fill_dimensions current found).0 k)
      ≡ first_of (truthy_or_null (lookup_dimension current k)) (first_filled found k)
unfolding fill_dimensions
fill_dimensions_lem [] current k = sym (first_of-none (truthy_or_null (lookup_dimension current k)))
fill_dimensions_lem ((i, v) ∷ rest) current k =
    elim (Bool-cases (is_truthy_option (lookup_dimension current i))) [
      | inl there ↦ rw there (
          fill_dimensions_lem rest current k ∙ kept_there current i v k (first_filled rest k) there)
      | inr missing ↦ rw missing (
          fill_dimensions_lem rest (put_dimension current i v) k
          ∙ filled_missing current i v k (first_filled rest k) missing)
    ]

unchanged :
    (found current : CustomDimensions)
    → (fill_dimensions current found).1 ≡ false
    → (fill_dimensions current found).0 ≡ current
unfolding fill_dimensions
unchanged [] current h = refl
unchanged ((i, v) ∷ rest) current h =
    elim (Bool-cases (is_truthy_option (lookup_dimension current i))) [
      | inl there ↦ rw there (unchanged rest current (rw there at h))
      | inr missing ↦ absurd (ground arith)
    ]

get_dimension-some :
    (k : ℕ) (m : SessionManager) (s : Session)
    → m.session ≡ some s
    → get_dimension k m ≡ truthy_or_null (lookup_dimension s.dimensions k)
unfolding get_dimension
get_dimension-some k m s e = rw e refl

get_dimension-if_session :
    (found : CustomDimensions) (k : ℕ) (o : Option Session) (m : SessionManager) (s : Session)
    → o ≡ some s
    → m.session ≡ some s
    → get_dimension k (
        if_session
          (λ s.
            if (fill_dimensions s.dimensions found).1
            then save_dimensions (fill_dimensions s.dimensions found).0 s m
            else m)
          o
          m)
      ≡ truthy_or_null (lookup_dimension (fill_dimensions s.dimensions found).0 k)
unfolding get_dimension save_dimensions
get_dimension-if_session found k none m s e h = absurd (ground arith)
get_dimension-if_session found k (some t) m s e h =
    rw (some_inj t s e) (elim (Bool-cases (fill_dimensions s.dimensions found).1) [
      | inl changed ↦ rw changed refl
      | inr same ↦ rw same (
          get_dimension-some k m s h
          ∙ ap (λ d. truthy_or_null (lookup_dimension d k))
              (sym (unchanged found s.dimensions same)))
    ])

-- On a page with a session, the dimensions of the URL fill the indices that have no value or an
-- empty one, each with the first value that is not empty, and change no other.
pub get_dimension-apply_url_dimensions :
    (found : CustomDimensions) (k : ℕ) (m : SessionManager) (s : Session)
    → m.session ≡ some s
    → get_dimension k (apply_url_dimensions found m)
      ≡ first_of (get_dimension k m) (first_filled found k)
unfolding apply_url_dimensions
get_dimension-apply_url_dimensions found k m s e =
    get_dimension-if_session found k m.session m s e e
    ∙ fill_dimensions_lem found s.dimensions k
    ∙ ap (λ o. first_of o (first_filled found k)) (sym (get_dimension-some k m s e))
