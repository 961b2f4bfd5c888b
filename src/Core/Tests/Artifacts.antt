-- ===== src/Core/Tests/Artifacts.antt =====
-- The search for the file of a contract in a directory with files for two chains.
use cw_orchestrator.Common.{String, ◌≡◌, List, [], ◌∷◌, ok_or}
use cw_orchestrator.Core.Error.{wasm_not_found}
use cw_orchestrator.Core.Paths.{
  BuildPostfix, custom, postfix_text, find_wasm_path_with_build_postfix,
}
use cw_orchestrator.Core.Paths.Priority.{by_priority, find_wasm_path-by_priority}

abbrev artifacts : List String
artifacts = "counter.wasm" ∷ "counter-juno-1-aarch64.wasm" ∷ "counter-juno-1.wasm" ∷ []

abbrev for_juno : BuildPostfix (Unit {0})
for_juno = custom "juno-1"

find_wasm_path-by_priority_example :
    find_wasm_path_with_build_postfix "artifacts" artifacts "counter" for_juno
    ≡ ok_or (by_priority "counter" "juno-1" artifacts) (wasm_not_found "counter" "artifacts")
unfolding postfix_text
find_wasm_path-by_priority_example =
    find_wasm_path-by_priority "artifacts" artifacts "counter" for_juno
