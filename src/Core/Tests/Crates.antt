-- ===== src/Core/Tests/Crates.antt =====
-- A crate that brings the code id and the address of one of two contracts with it.
use cw_orchestrator.Common.{refl, none, some, List, [], ◌∷◌, Outcome, ok}
use cw_orchestrator.Common.Dict
use cw_orchestrator.Core.Contract.{Contract, address, code_id}
use cw_orchestrator.Core.Deploy.Imported.{
  EnvironmentInfo, set_contracts_state, import_state, import_code_id, import_address, is_err, entry,
  as_code_id, as_address,
}
use cw_orchestrator.Core.Deploy.Imported.Reading.{AreImported, set_contracts_state-AreImported}
use cw_orchestrator.Core.Tests.{test_chain}
use cw_orchestrator.Daemon.Json.{index}
use cw_orchestrator.Daemon.Json.Tree.{text, number, object, no_fields, field, tree_json}
use cw_orchestrator.Mock.State.{MockState, get_address, get_code_id}

abbrev juno : EnvironmentInfo
juno = record { chain_name = "juno"; chain_id = "juno-1"; deployment_id = "default" }

unfoldable crate_state : tree_json.Value
unfolding tree_json
crate_state = object (
    field "juno"
      (object (
        field "juno-1"
          (object (
            field "code_ids" (object (field "cw20" (number 7) no_fields))
              (field "default" (object (field "cw20" (text "juno1cw20") no_fields)) no_fields)))
          no_fields))
      no_fields)

abbrev nothing_known : MockState
nothing_known = record { addresses = Dict.empty; code_ids = Dict.empty; chain_id = "juno-1" }

abbrev named : List Contract
named =
    record { id = "cw20"; default_code_id = none; default_address = none }
    ∷ record { id = "cw721"; default_code_id = none; default_address = none }
    ∷ []

abbrev with_defaults : List Contract
with_defaults =
    record { id = "cw20"; default_code_id = some 7; default_address = some "juno1cw20" }
    ∷ record { id = "cw721"; default_code_id = none; default_address = none }
    ∷ []

set_all :
    Path
      (Outcome (Unit {0}) (List Contract))
      (set_contracts_state tree_json test_chain juno (some crate_state) nothing_known named)
      (ok with_defaults)
unfolding set_contracts_state crate_state tree_json import_state import_code_id is_err code_id
    get_code_id Dict.get Dict.empty import_address address get_address as_code_id entry index
    as_address
set_all = refl

set_contracts_state-AreImported_example :
    AreImported tree_json test_chain juno crate_state nothing_known named with_defaults
set_contracts_state-AreImported_example =
    set_contracts_state-AreImported tree_json test_chain juno crate_state nothing_known named
      with_defaults set_all
