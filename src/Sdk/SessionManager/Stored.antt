-- ===== src/Sdk/SessionManager/Stored.antt =====
-- The session in memory against the keys of storage, and which dimensions there can be
-- (sdk/src/core/session.ts, sdk/src/utils/stm-dimensions.ts).
use Prim.Native.String.{count}
use staminads.Common.{
  ℕ, zero, suc, ◌+◌, ◌≤◌, String, ◌≡◌, refl, sym, Option, none, some, [], ◌∷◌, arith, All, ltb, leb,
  ◌==◌, leb→le, str_eq, Bool-cases, inl, inr,
}
use staminads.Common.Texts.{◌<>◌, decimal}
use staminads.Sdk.SessionManager.Types.{
  CustomDimensions, put_dimension, lookup_dimension, truthy_or_null, is_truthy_option, Session,
  Page, parse_stm_dimensions, max_dimension_length, url_dimension, parse_from,
}
use staminads.Sdk.SessionManager.{
  Store, SessionManager, load_dimensions, load_user_id, save_session, save_dimensions, save_user_id,
  fresh_session, create_session, fill_dimensions,
}

abbrev pub IsDimension : ℕ × String → Type 0
IsDimension (i, v) = (1 ≤ i) × ((i ≤ 10) × (count v ≤ 256))

-- The keys of the dimensions and of the user hold what the stored session holds.
abbrev pub HasSameKeys : Store → Option Session → Type 0
HasSameKeys store none = Unit
HasSameKeys store (some s) =
    (load_dimensions store ≡ s.dimensions) × (load_user_id store ≡ truthy_or_null s.user_id)

abbrev pub IsKept : Option Session → Option Session → Type 0
IsKept stored none = Unit
IsKept stored (some s) = stored ≡ some s

pub record IsSound (m : SessionManager) : Type 0 where
  pub same_keys : HasSameKeys m.store m.store.session
  pub kept : IsKept m.store.session m.session
  pub dimensions : All IsDimension (load_dimensions m.store)

pub put_dimension-IsDimension :
    (d : CustomDimensions) (i : ℕ) (v : String)
    → All IsDimension d
    → IsDimension (i, v)
    → All IsDimension (put_dimension d i v)
unfolding put_dimension
put_dimension-IsDimension [] i v _ k = (k, tt)
put_dimension-IsDimension ((j, old) ∷ rest) i v (h, hs) k = elim (Bool-cases (j == i)) [
  | inl same ↦ rw same ((h.0, (h.1.0, k.1.1)), hs)
  | inr other ↦ elim (Bool-cases (ltb i j)) [
    | inl before ↦ rw (other, before) (k, (h, hs))
    | inr after ↦ rw (other, after) (h, put_dimension-IsDimension rest i v hs k)
  ]
]

url_dimension-IsDimension :
    (i : ℕ) (o : Option String) (found : CustomDimensions)
    → (1 ≤ i) × (i ≤ 10)
    → All IsDimension found
    → All IsDimension (url_dimension i o found)
url_dimension-IsDimension i none found k h = h
url_dimension-IsDimension i (some v) found k h =
    elim (Bool-cases (leb (count v) max_dimension_length)) [
      | inl short ↦
          rw short (put_dimension-IsDimension found i v h (k.0, (k.1, leb→le (count v) 256 short)))
      | inr long ↦ rw long h
    ]

parse_from-IsDimension :
    (params : String → Option String) (i rounds : ℕ) (found : CustomDimensions)
    → (1 ≤ i) × (i + rounds ≤ 11)
    → All IsDimension found
    → All IsDimension (parse_from params i rounds found)
parse_from-IsDimension params i zero found k h = h
parse_from-IsDimension params i (suc rounds) found k h =
    parse_from-IsDimension params (suc i) rounds _ (omega arith, omega (arith, k.1))
      (url_dimension-IsDimension i (params ("stm_" <> decimal i)) found (k.0, omega (arith, k.1)) h)

pub parse_stm_dimensions-IsDimension :
    (params : String → Option String) → All IsDimension (parse_stm_dimensions params)
unfolding parse_stm_dimensions
parse_stm_dimensions-IsDimension params =
    parse_from-IsDimension params 1 10 [] (omega arith, omega arith) tt

pub fill_dimensions-IsDimension :
    (current url : CustomDimensions)
    → All IsDimension current
    → All IsDimension url
    → All IsDimension (fill_dimensions current url).0
unfolding fill_dimensions
fill_dimensions-IsDimension current [] h _ = h
fill_dimensions-IsDimension current ((i, v) ∷ rest) h (k, ks) =
    elim (Bool-cases (is_truthy_option (lookup_dimension current i))) [
      | inl there ↦ rw there (fill_dimensions-IsDimension current rest h ks)
      | inr missing ↦ rw missing (
          fill_dimensions-IsDimension (put_dimension current i v) rest
            (put_dimension-IsDimension current i v h k) ks)
    ]

-- What is known of the session in memory.
pub session_keys :
    (m : SessionManager) (s : Session)
    → IsSound m
    → m.session ≡ some s
    → (load_dimensions m.store ≡ s.dimensions) × (load_user_id m.store ≡ truthy_or_null s.user_id)
unfolding load_dimensions load_user_id
session_keys m s h e =
    let kept : m.store.session ≡ some s = rw e at h.kept in rw kept at h.same_keys

pub save_session-IsSound :
    (m : SessionManager) (s : Session)
    → IsSound m
    → HasSameKeys m.store (some s)
    → IsSound (save_session s m)
unfolding save_session load_dimensions load_user_id
save_session-IsSound m s h k = record { same_keys = k; kept = refl; dimensions = h.dimensions }

pub save_dimensions-IsSound :
    (m : SessionManager) (s : Session) (d : CustomDimensions)
    → IsSound m
    → m.session ≡ some s
    → All IsDimension d
    → IsSound (save_dimensions d s m)
unfolding save_dimensions load_dimensions load_user_id
save_dimensions-IsSound m s d h e k = record {
  same_keys = (refl, (session_keys m s h e).1);
  kept = refl;
  dimensions = k;
}

pub save_user_id-IsSound :
    (m : SessionManager) (s : Session) (id : Option String)
    → IsSound m
    → m.session ≡ some s
    → IsSound (save_user_id id s m)
unfolding save_user_id load_dimensions load_user_id
save_user_id-IsSound m s id h e = record {
  same_keys = ((session_keys m s h e).0, refl);
  kept = refl;
  dimensions = h.dimensions;
}

pub truthy_or_null-twice :
    (o : Option String) → truthy_or_null (truthy_or_null o) ≡ truthy_or_null o
truthy_or_null-twice none = refl
truthy_or_null-twice (some s) = elim (Bool-cases (str_eq s "")) [
  | inl blank ↦ rw blank refl
  | inr there ↦ rw there (rw there refl)
]

pub create_session-IsSound :
    (page : Page) (now : ℕ) (id : String) (m : SessionManager)
    → IsSound m
    → IsSound (create_session page now id m).0
unfolding create_session fresh_session load_user_id
create_session-IsSound page now id m h =
    save_session-IsSound m (fresh_session page now id m) h
      (refl, sym (truthy_or_null-twice m.store.user_id))
