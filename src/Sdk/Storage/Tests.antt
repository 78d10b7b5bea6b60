-- ===== src/Sdk/Storage/Tests.antt =====
-- Runs of sdk/src/storage/storage.ts, and the theorems at them, with texts as the values.
use staminads.Common.{
  String, true, false, Option, none, some, [], ◌∷◌, ◌≡◌, refl, str_eq, if◌then◌else◌,
}
use staminads.Common.Dict.{get}
use staminads.Sdk.Storage.{Storage, value, null, get_value, set_value, tab_get_value}
use staminads.Sdk.Storage.Reads.{get_value-set_value, get_value-corrupt}

-- A JSON of texts in which all but the broken text are fine.
abbrev parse_text : String → Option String
parse_text text = if str_eq text "{" then none else some text

abbrev parse_any : String → Option String
parse_any text = some text

abbrev same_text : String → String
same_text text = text

abbrev stored : Storage
stored = record {
  use_memory = false;
  memory = [];
  local_storage = ("stm_dimensions", "{") ∷ ("stm_session", "s1") ∷ [];
}

session_is_read : (get_value parse_text false "session" stored).1 ≡ value "s1"
unfolding get_value get
session_is_read = refl

get_value-set_value_example :
    (get_value parse_any false "session" (set_value same_text true "session" "s2" stored)).1
    ≡ value "s2"
get_value-set_value_example =
    get_value-set_value parse_any same_text (λ _. refl) true "session" "s2" stored

get_value-corrupt_example :
    let broken = (get_value parse_text false "dimensions" stored).0 in
    (broken.use_memory ≡ true) × ((get_value parse_text false "session" broken).1 ≡ null)
unfolding get
get_value-corrupt_example =
    get_value-corrupt parse_text "dimensions" "session" "{" stored refl refl refl refl

-- TabStorage after a corrupt item: it has left sessionStorage, too.
tab_corrupt :
    tab_get_value parse_text false "dimensions" stored ≡ (record stored { use_memory = true }, null)
unfolding tab_get_value get
tab_corrupt = refl
