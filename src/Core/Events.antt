-- ===== src/Core/Events.antt =====
-- packages/cw-orch-core/src/environment/index_response.rs
-- The events of a response. `Attribute` and `Event` have the fields of cosmwasm-std's structs that
-- the program reads; a response is the interface `IndexResponse`.
pub mod Search
use cw_orchestrator.Common.{
  ℕ, String, Bool, true, false, Option, none, some, List, [], ◌∷◌, ◌++◌, ◌==◌, if◌then◌else◌,
  Outcome, ok, err, panic, ◌>>=◌, map_ok, unwrap,
}

pub record Attribute : Type 0 where
  pub key : String
  pub value : String

pub record Event : Type 0 where
  pub ty : String
  pub attributes : List Attribute

-- The inner loop of both searches: the first value, and all values, under a key.
unfoldable pub first_value : String → List Attribute → Option String
first_value key [] = none
first_value key (a ∷ attrs) = if a.key == key then some a.value else first_value key attrs

unfoldable pub values : String → List Attribute → List String
values key [] = []
values key (a ∷ attrs) =
    let rest = values key attrs in if a.key == key then a.value ∷ rest else rest

-- `generic_err` by its texts: "missing combination (event: .., attribute: ..)" and "event of type .. does
-- not have a value at key ..".
pub data StdError : Type 0 where
  missing_combination : String → String → StdError
  no_value : String → String → StdError

unfoldable pub search_event : String → String → List Event → Option String
search_event ty key [] = none
search_event ty key (e ∷ events) =
    let rest = search_event ty key events in
    if e.ty == ty
    then (elim (first_value key e.attributes) [ some v ↦ some v | none ↦ rest ])
    else rest

-- `AppResponse::event_attr_value`
unfoldable pub event_attr_value : List Event → String → String → Outcome StdError String
unfolding search_event
event_attr_value events ty key = elim (search_event ty key events) [
  | some v ↦ ok v
  | none ↦ err (missing_combination ty key)
]

-- `AppResponse::event_attr_values`
unfoldable pub event_attr_values : List Event → String → String → List String
event_attr_values [] ty key = []
event_attr_values (e ∷ events) ty key =
    let rest = event_attr_values events ty key in
    if e.ty == ty then values key e.attributes ++ rest else rest

-- The trait, at one response. The data field is not read by the program's own code.
pub record IndexResponse (R : Type 0) : Type 0 where
  pub events_of : R → List Event
  pub attr_value : R → String → String → Outcome StdError String
  pub attr_values : R → String → String → List String

-- What the default methods call: `str::parse::<u64>`, and `snailquote::unescape` where the crate is
-- built with the feature `eth`.
pub record Parsers : Type 0 where
  pub parse_u64 : String → Option ℕ
  pub unescape : Option (String → Option String)

module _ {R : Type 0} (i : IndexResponse R) (p : Parsers) where
  parse : String → Outcome StdError ℕ
  parse s = unwrap (p.parse_u64 s)

  -- `s.parse().unwrap()` panics on a text that is no number.
  code_id_injective : R → Option (String → Option String) → Outcome StdError ℕ
  code_id_injective r none = panic
  code_id_injective r (some unescape) =
      i.attr_value r "cosmwasm.wasm.v1.EventCodeStored" "code_id" >>= λ s.
      unwrap (unescape s) >>= parse

  unfoldable pub uploaded_code_id : R → Outcome StdError ℕ
  unfolding code_id_injective parse
  uploaded_code_id r = elim (i.attr_value r "store_code" "code_id") [
    | ok s ↦ parse s
    | err e ↦ code_id_injective r p.unescape
    | panic ↦ panic
  ]

  address_injective : R → Option (String → Option String) → Outcome StdError String
  address_injective r none = panic
  address_injective r (some unescape) =
      i.attr_value r "cosmwasm.wasm.v1.EventContractInstantiated" "contract_address" >>= λ s.
      unwrap (unescape s)

  unfoldable pub instantiated_contract_address : R → Outcome StdError String
  unfolding address_injective
  instantiated_contract_address r = elim (i.attr_value r "instantiate" "_contract_address") [
    | ok s ↦ ok s
    | err e ↦ address_injective r p.unescape
    | panic ↦ panic
  ]

-- The trait's instance for `AppResponse`, whose fields are the events and the data.
pub record AppResponse : Type 0 where
  pub events : List Event
  pub payload : Option String

instance abbrev pub app_response : IndexResponse AppResponse
app_response = record {
  events_of = λ r. r.events;
  attr_value = λ r. event_attr_value r.events;
  attr_values = λ r. event_attr_values r.events;
}
