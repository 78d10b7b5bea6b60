-- ===== src/Sdk/Storage.antt =====
-- sdk/src/storage/storage.ts: localStorage with a map in memory to fall back on.
-- Each call says whether localStorage throws in it; JSON is a parameter, whose parse throws (none)
-- on a corrupt text.
pub mod Reads
mod Tests
use Prim.Native.String
use staminads.Common.{
  String, Bool, true, false, Option, none, some, List, [], ◌∷◌, not, str_eq, filter, if◌then◌else◌,
}
use text.Mathlib.Text.{starts_with}
use staminads.Common.Dict.{Dict, get, put, remove, only}

pub record Storage : Type 0 where
  pub use_memory : Bool
  pub memory : Dict String
  pub local_storage : Dict String

abbrev pub full_key : String → String
full_key key = String.◌++◌ "stm_" key

-- The constructor, which tries localStorage.
unfoldable pub new_storage : Bool → Dict String → Storage
new_storage fails local_items = record {
  use_memory = fails;
  memory = [];
  local_storage = local_items;
}

abbrev pub fall_back : Storage → Storage
fall_back s = record s { use_memory = true }

-- What a read comes to: a value, null or an exception.
pub data Read (Value : Type 0) : Type 0 where
  value : Value → Read Value
  null : Read Value
  thrown : Read Value

module _ {Value : Type 0} (parse : String → Option Value) where
  abbrev pub value_or_null : Option Value → Read Value
  value_or_null none = null
  value_or_null (some v) = value v

  abbrev pub value_or_thrown : Option Value → Read Value
  value_or_thrown none = thrown
  value_or_thrown (some v) = value v

  -- `value === undefined`, then JSON.parse in a try
  abbrev pub read_memory : Option String → Read Value
  read_memory none = null
  read_memory (some text) = value_or_null (parse text)

  -- `this.memory.get(fullKey) ? JSON.parse(…) : null`, outside the try
  abbrev pub read_fallback : Option String → Read Value
  read_fallback none = null
  read_fallback (some text) = if str_eq text "" then null else value_or_thrown (parse text)

  abbrev pub give_up : String → Storage → Storage × Read Value
  give_up key s = (fall_back s, read_fallback (get s.memory (full_key key)))

  abbrev pub parsed : String → Option Value → Storage → Storage × Read Value
  parsed key (some v) s = (s, value v)
  parsed key none s = give_up key s

  abbrev pub read_local : String → Option String → Storage → Storage × Read Value
  read_local key none s = (s, null)
  read_local key (some text) s = parsed key (parse text) s

  unfoldable pub get_value : Bool → String → Storage → Storage × Read Value
  get_value fails key s =
      if s.use_memory
      then (s, read_memory (get s.memory (full_key key)))
      else if fails
      then give_up key s
      else read_local key (get s.local_storage (full_key key)) s

unfoldable pub set_value :
    {Value : Type 0} → (Value → String) → Bool → String → Value → Storage → Storage
set_value stringify fails key v s =
    if s.use_memory
    then record s { memory = put s.memory (full_key key) (stringify v) }
    else if fails
    then record s { use_memory = true; memory = put s.memory (full_key key) (stringify v) }
    else record s { local_storage = put s.local_storage (full_key key) (stringify v) }

unfoldable pub remove_value : Bool → String → Storage → Storage
remove_value fails key s =
    if s.use_memory
    then record s { memory = remove s.memory (full_key key) }
    else if fails
    then record s { memory = remove s.memory (full_key key) }
    else record s { local_storage = remove s.local_storage (full_key key) }

unfoldable pub is_using_memory : Storage → Bool
is_using_memory s = s.use_memory

-- Only the keys with the SDK's prefix are removed from localStorage.
unfoldable pub clear : Bool → Storage → Storage
clear fails s =
    if s.use_memory
    then record s { memory = [] }
    else if fails
    then record s { memory = [] }
    else record s { local_storage = only (λ name. not (starts_with name "stm_")) s.local_storage }

-- TabStorage, the same over sessionStorage (here in the place of localStorage), whose read does not
-- look into memory when it falls back.
abbrev pub tab_parsed : {Value : Type 0} → Option Value → Storage → Storage × Read Value
tab_parsed (some v) s = (s, value v)
tab_parsed none s = (fall_back s, null)

abbrev pub tab_read :
    {Value : Type 0} → (String → Option Value) → Option String → Storage → Storage × Read Value
tab_read parse none s = (s, null)
tab_read parse (some text) s = tab_parsed (parse text) s

unfoldable pub tab_get_value :
    {Value : Type 0} → (String → Option Value) → Bool → String → Storage → Storage × Read Value
tab_get_value parse fails key s =
    if s.use_memory
    then (s, read_memory parse (get s.memory (full_key key)))
    else if fails
    then (fall_back s, null)
    else tab_read parse (get s.local_storage (full_key key)) s

unfoldable pub tab_set_value :
    {Value : Type 0} → (Value → String) → Bool → String → Value → Storage → Storage
tab_set_value stringify fails key v s =
    if s.use_memory
    then record s { memory = put s.memory (full_key key) (stringify v) }
    else if fails
    then record s { use_memory = true; memory = put s.memory (full_key key) (stringify v) }
    else record s { local_storage = put s.local_storage (full_key key) (stringify v) }
