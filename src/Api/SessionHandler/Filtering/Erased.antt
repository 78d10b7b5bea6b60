-- ===== src/Api/SessionHandler/Filtering/Erased.antt =====
-- The custom dimensions of an event under filters (api/src/events/session-payload.handler.ts and
-- api/src/filters/lib/filter-evaluator.ts).
use staminads.Common.{
  String, Bool, Option, none, some, List, [], ◌∷◌, str_eq, Bool-cases, inl, inr, ◌≡◌, refl, ◌∙◌, ap,
  arith, All,
}
use staminads.Common.Dict.{get, get-assign, last_value, Dict, keys}
use staminads.Api.Filters.Evaluator.{FilterDefinition, evaluate_filters}
use staminads.Api.SessionHandler.Event.{TrackingEvent, null}
use staminads.Api.SessionHandler.Filtering.{
  extract_field_values, no_dimensions, place_all, write_modified, apply_filter_results,
  apply_results, apply_filters,
}

last_value-absent :
    {V : Type 0} (m : Dict V) (key : String) (other : Option V)
    → get m key ≡ none
    → last_value m key other ≡ other
unfolding get last_value
last_value-absent [] key other h = refl
last_value-absent ((name, v) ∷ more) key other h = elim (Bool-cases (str_eq name key)) [
  | inl here ↦ absurd (ground arith)
  | inr elsewhere ↦ rw elsewhere (last_value-absent more key other (ground arith))
]

module _ (regex_test : String → String → Option Bool) where
  get-apply_filters :
      (f : FilterDefinition) (rest : List FilterDefinition) (event : TrackingEvent) (name : String)
      → evaluate_filters regex_test (extract_field_values event) (f ∷ rest) ≡ []
      → get (apply_filters regex_test (f ∷ rest) event) name
        ≡ last_value no_dimensions name (get event name)
  unfolding apply_filters apply_filter_results place_all write_modified
  get-apply_filters f rest event name nothing =
      ap
        (λ results.
          get (apply_results regex_test (place_all results (no_dimensions, [])) event) name)
        nothing
      ∙ get-assign event no_dimensions name

  -- As soon as a workspace has a filter, an event to which no filter applies gets null for the
  -- channel, the channel group and all ten custom dimensions, whatever the SDK has sent for them;
  -- its other fields stay as they are.
  pub apply_filters-erased :
      (f : FilterDefinition) (rest : List FilterDefinition) (event : TrackingEvent) (other : String)
      → evaluate_filters regex_test (extract_field_values event) (f ∷ rest) ≡ []
      → get no_dimensions other ≡ none
      → All
          (λ name. get (apply_filters regex_test (f ∷ rest) event) name ≡ some null)
          (keys no_dimensions)
        × (get (apply_filters regex_test (f ∷ rest) event) other ≡ get event other)
  unfolding last_value
  apply_filters-erased f rest event other nothing free = (
    (
      get-apply_filters f rest event "channel" nothing,
      (
        get-apply_filters f rest event "channel_group" nothing,
        (
          get-apply_filters f rest event "stm_1" nothing,
          (
            get-apply_filters f rest event "stm_2" nothing,
            (
              get-apply_filters f rest event "stm_3" nothing,
              (
                get-apply_filters f rest event "stm_4" nothing,
                (
                  get-apply_filters f rest event "stm_5" nothing,
                  (
                    get-apply_filters f rest event "stm_6" nothing,
                    (
                      get-apply_filters f rest event "stm_7" nothing,
                      (
                        get-apply_filters f rest event "stm_8" nothing,
                        (
                          get-apply_filters f rest event "stm_9" nothing,
                          (get-apply_filters f rest event "stm_10" nothing, tt),
                        ),
                      ),
                    ),
                  ),
                ),
              ),
            ),
          ),
        ),
      ),
    ),
    get-apply_filters f rest event other nothing
        ∙ last_value-absent no_dimensions other (get event other) free,
  )
