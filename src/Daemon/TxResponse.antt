-- ===== src/Daemon/TxResponse.antt =====
-- cw-orch-daemon/src/tx_resp.rs
-- The messages of a node (`AbciMessageLog`, `StringEvent`, `Attribute`, the ABCI `Event`) are records of
-- the fields that are read. A byte string is a type `Bytes`; the timestamp is in the child `Timestamp`.
pub mod Timestamp
pub mod Searches
use cw_orchestrator.Common.{
  ℕ, String, Bool, Option, none, some, List, [], ◌∷◌, ◌++◌, map, Outcome, ok, err, ◌==◌, ◌%◌, ◌^◌,
  if◌then◌else◌, keep, first, flat_map,
}
use cw_orchestrator.Common.Text.{is_empty}
use cw_orchestrator.Core.Events.{StdError, no_value, IndexResponse}
use cw_orchestrator.Core.Events

pub record TxResultBlockAttribute : Type 0 where
  pub key : String
  pub value : String

pub record TxResultBlockEvent : Type 0 where
  pub s_type : String
  pub attributes : List TxResultBlockAttribute

pub record TxResultBlockMsg : Type 0 where
  pub msg_index : Option ℕ
  pub events : List TxResultBlockEvent

-- The node's messages.
pub record StringEvent : Type 0 where
  pub type_ : String
  pub attributes : List (String × String)

pub record AbciMessageLog : Type 0 where
  pub msg_index : ℕ
  pub events : List StringEvent

pub record AbciEvent (Bytes : Type 0) : Type 0 where
  pub type_ : String
  pub attributes : List (Bytes × Bytes)

-- `From<Attribute>`, `From<StringEvent>` and `From<AbciMessageLog>`
unfoldable pub attribute_from : String × String → TxResultBlockAttribute
attribute_from a = record { key = a.0; value = a.1 }

unfoldable pub event_from : StringEvent → TxResultBlockEvent
event_from e = record { s_type = e.type_; attributes = map attribute_from e.attributes }

unfoldable pub msg_from : AbciMessageLog → TxResultBlockMsg
msg_from m = record { msg_index = some m.msg_index; events = map event_from m.events }

-- `TxResultBlockEvent::get_attributes`
unfoldable pub get_attributes : TxResultBlockEvent → String → List TxResultBlockAttribute
get_attributes e key = keep (λ a. a.key == key) e.attributes

abbrev value_of : Option TxResultBlockAttribute → Option String
value_of none = none
value_of (some a) = some a.value

-- `TxResultBlockEvent::get_first_attribute_value`
unfoldable pub get_first_attribute_value : TxResultBlockEvent → String → Option String
get_first_attribute_value e key = value_of (first (get_attributes e key))

pub record CosmTxResponse (Bytes Time : Type 0) : Type 0 where
  pub height : ℕ
  pub txhash : String
  pub codespace : String
  pub code : ℕ
  pub payload : String
  pub raw_log : String
  pub logs : List TxResultBlockMsg
  pub info : String
  pub gas_wanted : ℕ
  pub gas_used : ℕ
  pub timestamp : Time
  pub events : List (AbciEvent Bytes)

-- `unwrap_or_default` of an index
abbrev or_zero : Option ℕ → ℕ
or_zero none = 0
or_zero (some n) = n

abbrev indexed : ℕ → Option String → List (ℕ × String)
indexed n none = []
indexed n (some v) = (n, v) ∷ []

-- The conversions of bytes: the lossy decoding, and the test of bytes against a text.
pub record Decoding (Bytes : Type 0) : Type 0 where
  pub parse_attribute_bytes : Bytes → String
  pub is_text : Bytes → String → Bool

first_of_event : String → Option TxResultBlockEvent → Option String
first_of_event key none = none
first_of_event key (some e) = get_first_attribute_value e key

abbrev or_else : Option String → Option String → Option String
or_else (some v) o = some v
or_else none o = o

abbrev found_or : Option String → StdError → Outcome StdError String
found_or (some v) e = ok v
found_or none e = err e

module _ {Bytes Time : Type 0} where
  -- `CosmTxResponse::get_attribute_from_logs`: of each message only the first event of the type is
  -- searched, for the first value under the key.
  unfoldable pub get_attribute_from_logs :
      CosmTxResponse Bytes Time → String → String → List (ℕ × String)
  unfolding first_of_event
  get_attribute_from_logs r event_type attribute_key =
      flat_map
        (λ m.
          indexed (or_zero m.msg_index)
            (first_of_event attribute_key (first (keep (λ e. e.s_type == event_type) m.events))))
        r.logs

  unfoldable pub get_events_from_logs : CosmTxResponse Bytes Time → String → List TxResultBlockEvent
  get_events_from_logs r event_type =
      flat_map (λ m. keep (λ e. e.s_type == event_type) m.events) r.logs

module _ {Bytes : Type 0} (d : Decoding Bytes) where
  -- An attribute and an event with their bytes decoded.
  abbrev pub decode_attribute : Bytes × Bytes → TxResultBlockAttribute
  decode_attribute a = record {
    key = d.parse_attribute_bytes a.0;
    value = d.parse_attribute_bytes a.1;
  }

  abbrev pub decode_event : AbciEvent Bytes → TxResultBlockEvent
  decode_event e = record { s_type = e.type_; attributes = map decode_attribute e.attributes }

  log_events_or :
      List (AbciEvent Bytes) → String → List TxResultBlockEvent → List TxResultBlockEvent
  log_events_or events event_type [] = map decode_event (keep (λ e. e.type_ == event_type) events)
  log_events_or events event_type (e ∷ es) = e ∷ es

  -- `CosmTxResponse::get_events`: the events of the logs, or if these have none, of the response.
  unfoldable pub get_events :
      {Time : Type 0} → CosmTxResponse Bytes Time → String → List TxResultBlockEvent
  unfolding log_events_or
  get_events r event_type = log_events_or r.events event_type (get_events_from_logs r event_type)

  -- `IndexResponse::data`; `to_json` is the third-party encoding of the data's bytes.
  unfoldable pub data_of :
      {Time : Type 0} → (String → String) → CosmTxResponse Bytes Time → Option String
  data_of to_json r = if is_empty r.payload then none else some (to_json r.payload)

  -- The events as cosmwasm-std has them.
  std_attribute : Bytes × Bytes → Events.Attribute
  std_attribute a = record {
    key = d.parse_attribute_bytes a.0;
    value = d.parse_attribute_bytes a.1;
  }

  std_event : AbciEvent Bytes → Events.Event
  unfolding std_attribute
  std_event e = record { ty = e.type_; attributes = map std_attribute e.attributes }

  unfoldable pub events : {Time : Type 0} → CosmTxResponse Bytes Time → List Events.Event
  unfolding std_event
  events r = map std_event r.events

  -- The inner loops of both searches.
  unfoldable pub raw_values : String → List (Bytes × Bytes) → List String
  raw_values key [] = []
  raw_values key (a ∷ rest) =
      let later = raw_values key rest in
      if d.is_text a.0 key then d.parse_attribute_bytes a.1 ∷ later else later

  unfoldable pub event_attr_values :
      {Time : Type 0} → CosmTxResponse Bytes Time → String → String → List String
  event_attr_values r event_type attr_key =
      flat_map (λ e. if e.type_ == event_type then raw_values attr_key e.attributes else [])
        r.events

  raw_first : String → List (Bytes × Bytes) → Option String
  raw_first key [] = none
  raw_first key (a ∷ rest) =
      if d.is_text a.0 key then some (d.parse_attribute_bytes a.1) else raw_first key rest

  search : String → String → List (AbciEvent Bytes) → Option String
  unfolding raw_first
  search event_type attr_key [] = none
  search event_type attr_key (e ∷ es) =
      let later = search event_type attr_key es in
      if e.type_ == event_type then or_else (raw_first attr_key e.attributes) later else later

  unfoldable pub event_attr_value :
      {Time : Type 0} → CosmTxResponse Bytes Time → String → String → Outcome StdError String
  unfolding search
  event_attr_value r event_type attr_key =
      found_or (search event_type attr_key r.events) (no_value event_type attr_key)

  instance abbrev pub cosm_tx_response : {Time : Type 0} → IndexResponse (CosmTxResponse Bytes Time)
  cosm_tx_response = record {
    events_of = events;
    attr_value = event_attr_value;
    attr_values = event_attr_values;
  }
