-- ===== src/Daemon/Tests/Responses.antt =====
-- A response of a node with two events.
use cw_orchestrator.Common.{map_err, String, ◌≡◌, refl, [], ◌∷◌, ◌==◌}
use cw_orchestrator.Core.Events
use cw_orchestrator.Daemon.TxResponse.{
  AbciEvent, CosmTxResponse, Decoding, events, event_attr_value, event_attr_values,
}
use cw_orchestrator.Daemon.TxResponse.Searches.{searches-app_response}

abbrev plain : Decoding String
plain = record { parse_attribute_bytes = λ b. b; is_text = λ b s. b == s }

abbrev event : String → AbciEvent String
event value = record { type_ = "wasm"; attributes = ("action", value) ∷ [] }

abbrev response : CosmTxResponse String (Unit {0})
response = record {
  height = 9;
  txhash = "AB";
  codespace = "";
  code = 0;
  payload = "";
  raw_log = "";
  logs = [];
  info = "";
  gas_wanted = 5;
  gas_used = 4;
  timestamp = tt;
  events = event "mint" ∷ event "burn" ∷ [];
}

searches-app_response_example :
    (event_attr_value plain response "wasm" "action"
      ≡ map_err
          (λ e. Events.no_value "wasm" "action")
          (Events.event_attr_value (events plain response) "wasm" "action"))
    × (event_attr_values plain response "wasm" "action"
        ≡ Events.event_attr_values (events plain response) "wasm" "action")
searches-app_response_example =
    searches-app_response plain "action" response "wasm" ((refl, tt), ((refl, tt), tt))
