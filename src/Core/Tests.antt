-- ===== src/Core/Tests.antt =====
-- The theorems on packages/cw-orch-core at a concrete chain: one that accepts every transaction and
-- keeps its deployment in a mock state.
mod Deployments
mod Artifacts
mod Crates
use cw_orchestrator.Common.{
  ℕ, String, ◌≡◌, refl, Bool, true, false, Option, none, some, [], ◌∷◌, ok, ◌↔◌, ◌==◌,
  if◌then◌else◌,
}
use cw_orchestrator.Common.Dict
use cw_orchestrator.Common.Exec.{Exec}
use cw_orchestrator.Core.Error.{any_error}
use cw_orchestrator.Core.Events.{
  Event, event_attr_value, first_value, AppResponse, app_response, uploaded_code_id,
  instantiated_contract_address,
}
use cw_orchestrator.Core.Contract.{Chain, Contract, address, code_id, upload, instantiate}
use cw_orchestrator.Core.Contract.Flow.{upload-registers, instantiate-registers}
use cw_orchestrator.Core.Conditional.{WasmQuerier, upload_if_needed, upload_and_migrate_if_needed}
use cw_orchestrator.Core.Conditional.Uploading.{IsUploaded}
use cw_orchestrator.Core.Conditional.Migrating.{IsRunning, upload_and_migrate-none_iff}
use cw_orchestrator.Core.ChainInfo.{testnet, ChainInfo}
use cw_orchestrator.Mock.State.{MockState, mock_state, get_code_id}
use cw_orchestrator.Mock.State.Laws.{mock_state-StateLaws}

abbrev event : String → String → String → Event
event ty key value = record { ty = ty; attributes = record { key = key; value = value } ∷ [] }

abbrev stored : AppResponse
stored = record { events = event "store_code" "code_id" "7" ∷ []; payload = none }

abbrev created : AppResponse
created = record {
  events = event "instantiate" "_contract_address" "cosmos1abc" ∷ [];
  payload = none;
}

abbrev accept : AppResponse → Exec MockState String AppResponse
accept r w = (ok r, w)

abbrev read_seven : String → Option ℕ
read_seven s = if s == "7" then some 7 else none

abbrev test_chain : Chain MockState Unit Unit Unit Unit AppResponse String
test_chain = record {
  upload_tx = λ source. accept stored;
  execute_tx = λ msg coins to. accept created;
  instantiate_tx = λ code msg label admin coins. accept created;
  instantiate2_tx = λ code msg label admin coins salt. accept created;
  migrate_tx = λ msg code to. accept created;
  into = any_error;
  std_error = λ e. "missing";
  response = app_response;
  parsers = record { parse_u64 = read_seven; unescape = none };
  state = mock_state;
}

-- Every code has the hash of the local file, and every contract runs code 7.
abbrev test_wasm : WasmQuerier MockState Unit
test_wasm = record {
  code_id_hash = λ n w. ok "hash";
  local_hash = λ source c w. ok "hash";
  contract_code_id = λ a w. ok 7;
}

abbrev counter : Contract
counter = record { id = "counter"; default_code_id = none; default_address = none }

abbrev registered : Contract
registered = record { id = "other"; default_code_id = some 7; default_address = some "cosmos1abc" }

abbrev start : MockState
start = record { code_ids = Dict.empty; addresses = Dict.empty; chain_id = "juno-1" }

upload-registers_example :
    ((upload test_chain counter tt start).0 ≡ ok stored)
    × (code_id test_chain counter (upload test_chain counter tt start).1 ≡ ok 7)
    × (address test_chain counter (upload test_chain counter tt start).1
        ≡ address test_chain counter start)
unfolding uploaded_code_id event_attr_value first_value
upload-registers_example =
    upload-registers test_chain mock_state-StateLaws counter counter tt start stored 7 refl refl tt

instantiate-registers_example :
    ((instantiate test_chain registered tt none none start).0 ≡ ok created)
    × (address test_chain registered (instantiate test_chain registered tt none none start).1
        ≡ ok "cosmos1abc")
unfolding instantiated_contract_address event_attr_value code_id get_code_id Dict.get Dict.empty
    first_value
instantiate-registers_example =
    instantiate-registers test_chain mock_state-StateLaws registered registered tt none none start 7
      created "cosmos1abc" start refl refl refl tt

upload_and_migrate-none_iff_example :
    ((upload_and_migrate_if_needed test_chain test_wasm registered tt tt start).0 ≡ ok none) ↔ (
      IsUploaded test_chain test_wasm registered tt start
      × IsRunning test_chain test_wasm registered tt start)
upload_and_migrate-none_iff_example =
    upload_and_migrate-none_iff test_chain test_wasm registered tt tt start

-- A gas price that may be missing, as a NaN is.
abbrev missing_price : Option ℕ → Bool
missing_price none = true
missing_price (some n) = false

abbrev named : String → ChainInfo (Option ℕ)
named chain_id = record {
  chain_id = chain_id;
  gas_denom = "ujuno";
  gas_price = some 1;
  grpc_urls = [];
  lcd_url = none;
  fcd_url = none;
  network_info = record { chain_name = "juno"; pub_address_prefix = "juno"; coin_type = 118 };
  kind = testnet;
}
