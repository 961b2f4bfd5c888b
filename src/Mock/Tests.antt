-- ===== src/Mock/Tests.antt =====
-- A mock on an application that stores code under the number 7 and instantiates it.
use cw_orchestrator.Common.{ℕ, String, ◌≡◌, refl, none, some, [], ◌∷◌, ok, ◌+◌, ◌==◌, if◌then◌else◌}
use cw_orchestrator.Common.Dict
use cw_orchestrator.Core.Contract.{Chain, Contract, upload, instantiate, address, code_id}
use cw_orchestrator.Core.Error.{CwEnvError}
use cw_orchestrator.Core.Events.{
  Parsers, AppResponse, instantiated_contract_address, event_attr_value, search_event, first_value,
}
use cw_orchestrator.Mock.Core.{MultiTestApp, MockWorld, mock_chain}
use cw_orchestrator.Mock.Core.Uploads.{instantiate-upload}
use cw_orchestrator.Mock.State.{MockState, mock_state}
use cw_orchestrator.Mock.State.Laws.{mock_state-StateLaws}

abbrev no_events : AppResponse
no_events = record { events = []; payload = none }

abbrev created : AppResponse
created = record {
  events =
      record {
        ty = "instantiate";
        attributes = record { key = "_contract_address"; value = "juno1new" } ∷ [];
      }
      ∷ [];
  payload = none;
}

-- The application counts its calls.
abbrev counting : MultiTestApp ℕ (Unit {0}) (Unit {0}) (Unit {0}) (Unit {0})
counting = record {
  store_code = λ source n. (7, n + 1);
  execute_contract = λ sender to msg coins n. (ok no_events, n + 1);
  execute = λ sender msg n. (ok created, n + 1);
  migrate_contract = λ sender to msg code n. (ok no_events, n + 1);
  set_block_chain_id = λ id n. n;
  to_json_binary = λ msg. ok "{}";
  to_string = λ n. "7";
  std_error = λ e. "";
}

abbrev digits : Parsers
digits = record { parse_u64 = λ s. if s == "7" then some 7 else none; unescape = none }

abbrev contract : String → Contract
contract id = record { id = id; default_address = none; default_code_id = none }

abbrev empty_world : MockWorld ℕ MockState
empty_world = record {
  app = 0;
  state = record { addresses = Dict.empty; code_ids = Dict.empty; chain_id = "juno-1" };
}

abbrev chain :
    Chain (MockWorld ℕ MockState) (Unit {0}) (Unit {0}) (Unit {0}) (Unit {0}) AppResponse CwEnvError
chain = mock_chain counting mock_state digits "sender"

abbrev cw20 : MockWorld ℕ MockState
cw20 = (upload chain (contract "cw20") tt empty_world).1

instantiate-upload_example :
    ((instantiate chain (contract "cw20") tt none none cw20).0 ≡ ok created)
    × (address chain (contract "cw721") (instantiate chain (contract "cw20") tt none none cw20).1
        ≡ (if "cw20" == "cw721"
            then ok "juno1new"
            else address chain (contract "cw721") empty_world))
    × (code_id chain (contract "cw721") (instantiate chain (contract "cw20") tt none none cw20).1
        ≡ (if "cw20" == "cw721" then ok 7 else code_id chain (contract "cw721") empty_world))
unfolding instantiated_contract_address event_attr_value search_event first_value
instantiate-upload_example =
    instantiate-upload counting mock_state digits "sender" mock_state-StateLaws (contract "cw20")
      (contract "cw721") tt tt none none empty_world "{}" created "juno1new" 2 refl tt refl refl
      refl
