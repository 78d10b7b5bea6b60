-- ===== src/Api/SessionHandler/Filtering.antt =====
-- Filters on an event: extractFieldValues and applyFilterResults of
-- api/src/filters/lib/filter-evaluator.ts, and applyFilters of
-- api/src/events/session-payload.handler.ts.
pub mod Erased
use text.Mathlib.Text.{starts_with}
use staminads.Common.{
  ℕ, String, Bool, true, false, not, ◌&&◌, ◌||◌, Option, none, some, List, [], ◌∷◌, str_eq, ltb,
  leb, ◌==◌, if◌then◌else◌,
}
use staminads.Common.Dict.{Dict, get, put, assign}
use staminads.Common.Int.{pos, negsuc}
use staminads.Common.Texts.{◌<>◌, decimal, slice_from, all_digits, number}
use staminads.Api.Filters.Evaluator
use staminads.Api.Filters.Evaluator.{FilterDefinition, FieldValues, Value, evaluate_filters}
use staminads.Api.SessionHandler.Event
use staminads.Api.SessionHandler.Event.{Field, TrackingEvent}

abbrev pub text_of : Option Field → Option String
text_of (some (Event.string s)) = some s
text_of _ = none

-- `event['is_direct'] ? … : …`
abbrev pub is_truthy : Option Field → Bool
is_truthy none = false
is_truthy (some (Event.string s)) = not (str_eq s "")
is_truthy (some (Event.number (pos n))) = not (n == 0)
is_truthy (some (Event.number (negsuc n))) = true
is_truthy (some (Event.flag b)) = b
is_truthy (some (Event.bag properties)) = true
is_truthy (some Event.null) = false
is_truthy (some Event.undefined) = false

abbrev pub field_of : TrackingEvent → String → String × Option String
field_of event name = (name, text_of (get event name))

unfoldable pub extract_field_values : TrackingEvent → FieldValues
extract_field_values event =
    field_of event "utm_source"
    ∷ field_of event "utm_medium"
    ∷ field_of event "utm_campaign"
    ∷ field_of event "utm_term"
    ∷ field_of event "utm_content"
    ∷ field_of event "utm_id"
    ∷ field_of event "utm_id_from"
    ∷ field_of event "referrer"
    ∷ field_of event "referrer_domain"
    ∷ field_of event "referrer_path"
    ∷ ("is_direct", some (if is_truthy (get event "is_direct") then "true" else "false"))
    ∷ field_of event "landing_page"
    ∷ field_of event "landing_domain"
    ∷ field_of event "landing_path"
    ∷ field_of event "path"
    ∷ field_of event "device"
    ∷ field_of event "browser"
    ∷ field_of event "browser_type"
    ∷ field_of event "os"
    ∷ field_of event "user_agent"
    ∷ field_of event "connection_type"
    ∷ field_of event "language"
    ∷ field_of event "timezone"
    ∷ []

-- The value of `customDimensions` before the results.
abbrev pub no_dimensions : Dict Field
no_dimensions =
    ("channel", Event.null)
    ∷ ("channel_group", Event.null)
    ∷ ("stm_1", Event.null)
    ∷ ("stm_2", Event.null)
    ∷ ("stm_3", Event.null)
    ∷ ("stm_4", Event.null)
    ∷ ("stm_5", Event.null)
    ∷ ("stm_6", Event.null)
    ∷ ("stm_7", Event.null)
    ∷ ("stm_8", Event.null)
    ∷ ("stm_9", Event.null)
    ∷ ("stm_10", Event.null)
    ∷ []

abbrev pub field_of_value : Value → Field
field_of_value (Evaluator.str s) = Event.string s
field_of_value Evaluator.null = Event.null
field_of_value Evaluator.undefined = Event.undefined

-- The digits of `/^stm_(\d+)$/`, as a number.
abbrev pub slot_of_digits : String → Option ℕ
slot_of_digits digits =
    if str_eq digits "" then none else if all_digits digits then some (number 0 digits) else none

unfoldable pub slot_of : String → Option ℕ
slot_of dimension =
    if starts_with dimension "stm_" then slot_of_digits (slice_from 4 dimension) else none

-- Custom dimensions and modified fields.
abbrev pub Applied : Type 0
Applied = Dict Field × Dict Field

abbrev pub place_slot : Option ℕ → String → Field → Applied → Applied
place_slot none dimension v (custom, modified) = (custom, put modified dimension v)
place_slot (some slot) dimension v (custom, modified) =
    if leb 1 slot && leb slot 10
    then (put custom ("stm_" <> decimal slot) v, modified)
    else (custom, modified)

abbrev pub place_custom : String → Field → Applied → Applied
place_custom dimension v (custom, modified) = (put custom dimension v, modified)

abbrev pub place : String → Field → Applied → Applied
place dimension v applied =
    if str_eq dimension "channel" || str_eq dimension "channel_group"
    then place_custom dimension v applied
    else place_slot (slot_of dimension) dimension v applied

unfoldable pub place_all : Dict Value → Applied → Applied
place_all [] applied = applied
place_all ((dimension, v) ∷ rest) applied =
    place_all rest (place dimension (field_of_value v) applied)

-- `value === 'true'`
abbrev pub is_true : Field → Bool
is_true (Event.string s) = str_eq s "true"
is_true _ = false

unfoldable pub write_modified : Dict Field → TrackingEvent → TrackingEvent
write_modified [] event = event
write_modified ((name, v) ∷ rest) event =
    write_modified rest
      (put event name (if str_eq name "is_direct" then Event.flag (is_true v) else v))

module _ (regex_test : String → String → Option Bool) where
  unfoldable pub apply_filter_results : List FilterDefinition → FieldValues → Applied
  apply_filter_results filters fields =
      place_all (evaluate_filters regex_test fields filters) (no_dimensions, [])

  abbrev pub apply_results : Applied → TrackingEvent → TrackingEvent
  apply_results (custom, modified) event = write_modified modified (assign event custom)

  unfoldable pub apply_filters : List FilterDefinition → TrackingEvent → TrackingEvent
  apply_filters [] event = event
  apply_filters (f ∷ rest) event =
      apply_results (apply_filter_results (f ∷ rest) (extract_field_values event)) event
