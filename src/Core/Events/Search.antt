-- ===== src/Core/Events/Search.antt =====
-- The two searches of index_response.rs against each other.
use cw_orchestrator.Common.{
  String, ◌≡◌, refl, none, some, List, [], ◌∷◌, ◌++◌, arith, first, Outcome, ok, err,
}
use cw_orchestrator.Core.Events.{
  Attribute, Event, first_value, values, missing_combination, search_event, event_attr_value,
  event_attr_values, StdError,
}

first-values :
    (key : String) (attrs : List Attribute) → first (values key attrs) ≡ first_value key attrs
unfolding values first_value
first-values key [] = refl
first-values key (a ∷ attrs) = ground (arith, first-values key attrs)

first-append_cases :
    (xs ys : List String)
    → first (xs ++ ys) ≡ (elim (first xs) [ some x ↦ some x | none ↦ first ys ])
first-append_cases [] ys = refl
first-append_cases (x ∷ xs) ys = refl

first-event_attr_values :
    (events : List Event) (ty key : String)
    → first (event_attr_values events ty key) ≡ search_event ty key events
unfolding event_attr_values search_event
first-event_attr_values [] ty key = refl
first-event_attr_values (e ∷ events) ty key = ground (
  arith,
  first-event_attr_values events ty key,
  first-append_cases (values key e.attributes) (event_attr_values events ty key),
  first-values key e.attributes,
)

abbrev pub head_or_missing : String → String → List String → Outcome StdError String
head_or_missing ty key [] = err (missing_combination ty key)
head_or_missing ty key (v ∷ vs) = ok v

-- The single search finds the first of the values that the full search collects, and fails exactly
-- where that collects none.
pub event_attr_value_first :
    (events : List Event) (ty key : String)
    → event_attr_value events ty key ≡ head_or_missing ty key (event_attr_values events ty key)
unfolding event_attr_value
event_attr_value_first events ty key = ground (arith, first-event_attr_values events ty key)
