-- ===== src/Sdk/Storage/Reads.antt =====
-- Reads after writes in sdk/src/storage/storage.ts.
use text.Mathlib.Text.{starts_with}
use text.Mathlib.TextPositions.{starts_with-append}
use staminads.Common.{String, Bool, true, false, not, Option, none, some, ◌≡◌, ◌∙◌, refl}
use staminads.Common.Dict.{Dict, get, get-only, get-put_self}
use staminads.Sdk.Storage.{Storage, value, null, full_key, get_value, set_value, clear, read_memory}

module _ {Value : Type 0} (parse : String → Option Value) (stringify : Value → String)
    (round_trip : (v : Value) → parse (stringify v) ≡ some v) where
  read_memory-stringify : (v : Value) → read_memory parse (some (stringify v)) ≡ value v
  read_memory-stringify v = rw (round_trip v) refl

  get_value-set_fields :
      (u fails : Bool) (key : String) (v : Value) (m l : Dict String)
      → (get_value parse false key (
          set_value stringify fails key v
            (record { use_memory = u; memory = m; local_storage = l }))).1
        ≡ value v
  unfolding get_value set_value
  get_value-set_fields true fails key v m l =
      rw (get-put_self m (full_key key) (stringify v)) (read_memory-stringify v)
  get_value-set_fields false true key v m l =
      rw (get-put_self m (full_key key) (stringify v)) (read_memory-stringify v)
  get_value-set_fields false false key v m l =
      rw (get-put_self l (full_key key) (stringify v)) (rw (round_trip v) refl)

  -- A value that was set is what the next read of its key gives, whether localStorage failed in the
  -- write or not, and whether memory was in use before or not; JSON gives back what it was given,
  -- and localStorage does not fail in the read.
  pub get_value-set_value :
      (fails : Bool) (key : String) (v : Value) (s : Storage)
      → (get_value parse false key (set_value stringify fails key v s)).1 ≡ value v
  get_value-set_value fails key v s =
      get_value-set_fields s.use_memory fails key v s.memory s.local_storage

-- One item whose text is no JSON, while localStorage works: its read turns the storage to memory,
-- and then every key of which memory has nothing reads as null, whatever localStorage holds for it.
pub get_value-corrupt :
    {Value : Type 0} (parse : String → Option Value) (key other : String) (text : String)
    (s : Storage)
    → s.use_memory ≡ false
    → get s.local_storage (full_key key) ≡ some text
    → parse text ≡ none
    → get s.memory (full_key other) ≡ none
    → let broken = (get_value parse false key s).0 in
      (broken.use_memory ≡ true) × ((get_value parse false other broken).1 ≡ null)
unfolding get_value
get_value-corrupt parse key other text s working stored corrupt absent =
    rw working (rw stored (rw corrupt (refl, rw absent refl)))

-- After `clear` in a working storage every key of the SDK reads as null, and every item of another
-- name, which does not begin with the prefix of the SDK, is what it was.
get_value-clear :
    {Value : Type 0} (parse : String → Option Value) (key other : String) (s : Storage)
    → s.use_memory ≡ false
    → starts_with other "stm_" ≡ false
    → ((get_value parse false key (clear false s)).1 ≡ null)
      × (get (clear false s).local_storage other ≡ get s.local_storage other)
unfolding get_value clear
get_value-clear parse key other s working foreign =
    let here = get-only (λ name. not (starts_with name "stm_")) s.local_storage (full_key key) in
    let there = get-only (λ name. not (starts_with name "stm_")) s.local_storage other in
    rw working (rw here (rw (starts_with-append "stm_" key) refl), there ∙ rw foreign refl)
