-- ===== src/Sdk/SessionManager/Types.antt =====
-- The data of a session (sdk/src/types.ts) and what is read off the page's URL
-- (sdk/src/utils/utm.ts, sdk/src/utils/stm-dimensions.ts). `params` is `new URL(href).searchParams`,
-- where a missing parameter is `none`.
use Prim.Native.String.{count}
use staminads.Common.{
  ℕ, zero, suc, String, Bool, false, ◌||◌, not, Option, none, some, List, [], ◌∷◌, ltb, leb, ◌==◌,
  str_eq, if◌then◌else◌,
}
use staminads.Common.Texts.{◌<>◌, decimal}

pub record UtmParams : Type 0 where
  pub source : Option String
  pub medium : Option String
  pub campaign : Option String
  pub term : Option String
  pub content : Option String
  pub id : Option String
  pub id_from : Option String

-- An object with whole numbers as keys: its entries in the order of the keys.
abbrev pub CustomDimensions : Type 0
CustomDimensions = List (ℕ × String)

unfoldable pub put_dimension : CustomDimensions → ℕ → String → CustomDimensions
put_dimension [] index v = (index, v) ∷ []
put_dimension ((i, old) ∷ rest) index v =
    let later = put_dimension rest index v in
    if i == index
    then (i, v) ∷ rest
    else if ltb index i
    then (index, v) ∷ (i, old) ∷ rest
    else (i, old) ∷ later

unfoldable pub lookup_dimension : CustomDimensions → ℕ → Option String
lookup_dimension [] index = none
lookup_dimension ((i, v) ∷ rest) index = if i == index then some v else lookup_dimension rest index

-- A text that is not empty, as `text || null` gives it.
abbrev pub truthy_text : String → Option String
truthy_text s = if str_eq s "" then none else some s

abbrev pub truthy_or_null : Option String → Option String
truthy_or_null none = none
truthy_or_null (some s) = truthy_text s

abbrev pub is_truthy_option : Option String → Bool
is_truthy_option none = false
is_truthy_option (some s) = not (str_eq s "")

pub record Session : Type 0 where
  pub id : String
  pub workspace_id : String
  pub created_at : ℕ
  pub updated_at : ℕ
  pub last_active_at : ℕ
  pub focus_duration_ms : ℕ
  pub total_duration_ms : ℕ
  pub referrer : Option String
  pub landing_page : String
  pub utm : Option UtmParams
  pub max_scroll_percent : ℕ
  pub interaction_count : ℕ
  pub sdk_version : String
  pub sequence : ℕ
  pub dimensions : CustomDimensions
  pub user_id : Option String

pub record Page : Type 0 where
  pub href : String
  pub referrer : String
  pub params : String → Option String

-- The first of the advertisement parameters that has a value, with its value.
abbrev pub first_click_id : (String → Option String) → List String → Option String × Option String
first_click_id params [] = (none, none)
first_click_id params (param ∷ rest) =
    let later = first_click_id params rest in
    if is_truthy_option (params param) then (params param, some param) else later

unfoldable pub parse_utm_params : (String → Option String) → List String → UtmParams
parse_utm_params params ad_click_ids = record {
  source = params "utm_source";
  medium = params "utm_medium";
  campaign = params "utm_campaign";
  term = params "utm_term";
  content = params "utm_content";
  id = (first_click_id params ad_click_ids).0;
  id_from = (first_click_id params ad_click_ids).1;
}

unfoldable pub has_utm_values : UtmParams → Bool
has_utm_values utm =
    is_truthy_option utm.source
    || (is_truthy_option utm.medium
        || (is_truthy_option utm.campaign
            || (is_truthy_option utm.term
                || (is_truthy_option utm.content || is_truthy_option utm.id))))

abbrev pub max_dimension_length : ℕ
max_dimension_length = 256

abbrev pub url_dimension : ℕ → Option String → CustomDimensions → CustomDimensions
url_dimension i none found = found
url_dimension i (some v) found =
    if leb (count v) max_dimension_length then put_dimension found i v else found

-- The loop from `i` on, for as many rounds as are left.
abbrev pub parse_from : (String → Option String) → ℕ → ℕ → CustomDimensions → CustomDimensions
parse_from params i zero found = found
parse_from params i (suc rounds) found =
    parse_from params (suc i) rounds (url_dimension i (params ("stm_" <> decimal i)) found)

-- The ten rounds of the loop over stm_1 to stm_10.
unfoldable pub parse_stm_dimensions : (String → Option String) → CustomDimensions
parse_stm_dimensions params = parse_from params 1 10 []
