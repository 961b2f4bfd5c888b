-- ===== src/Mock/State.antt =====
-- packages/cw-orch-mock/src/state.rs
pub mod Laws
use cw_orchestrator.Common.{ℕ, String, Map, Option, Outcome, ok, ok_or}
use cw_orchestrator.Common.Dict
use cw_orchestrator.Core.Error.{CwEnvError, addr_not_in_store, code_id_not_in_store}
use cw_orchestrator.Core.State.{StateInterface}

pub record MockState : Type 0 where
  pub code_ids : Map ℕ
  pub addresses : Map String
  pub chain_id : String

-- `MockState::new_with_chain_id`
unfoldable pub new_with_chain_id : String → MockState
new_with_chain_id chain_id = record {
  code_ids = Dict.empty;
  addresses = Dict.empty;
  chain_id = chain_id;
}

unfoldable pub set_chain_id : MockState → String → MockState
set_chain_id s chain_id = record s { chain_id = chain_id }

unfoldable pub get_address : MockState → String → Outcome CwEnvError String
get_address s contract_id = ok_or (Dict.get s.addresses contract_id) (addr_not_in_store contract_id)

unfoldable pub set_address : MockState → String → String → MockState
set_address s contract_id address = record s {
  addresses = Dict.insert s.addresses contract_id address;
}

unfoldable pub remove_address : MockState → String → MockState
remove_address s contract_id = record s { addresses = Dict.remove s.addresses contract_id }

unfoldable pub get_code_id : MockState → String → Outcome CwEnvError ℕ
get_code_id s contract_id =
    ok_or (Dict.get s.code_ids contract_id) (code_id_not_in_store contract_id)

unfoldable pub set_code_id : MockState → String → ℕ → MockState
set_code_id s contract_id code_id = record s {
  code_ids = Dict.insert s.code_ids contract_id code_id;
}

unfoldable pub remove_code_id : MockState → String → MockState
remove_code_id s contract_id = record s { code_ids = Dict.remove s.code_ids contract_id }

abbrev pub mock_state : StateInterface MockState
mock_state = record {
  get_address = get_address;
  set_address = λ s k a. ok (set_address s k a);
  remove_address = λ s k. ok (remove_address s k);
  get_code_id = get_code_id;
  set_code_id = λ s k c. ok (set_code_id s k c);
  remove_code_id = λ s k. ok (remove_code_id s k);
  get_all_addresses = λ s. ok s.addresses;
  get_all_code_ids = λ s. ok s.code_ids;
}
