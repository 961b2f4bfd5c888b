-- ===== src/Core/Paths.antt =====
-- packages/cw-orch-core/src/contract/paths.rs and packages/cw-orch-core/src/build.rs
-- A directory is the list of the names of its `.wasm` files, in the order in which the operating system
-- lists them; a path is a text. The hashing of a file is not part of it.
pub mod Priority
use Prim.Native.String
use cw_orchestrator.Common.{
  String, Bool, true, false, Option, none, some, List, [], ◌∷◌, Outcome, ok, err, ◌==◌, ◌&&◌, ◌||◌,
  if◌then◌else◌, ok_or, panic,
}
use cw_orchestrator.Common.Text.{contains}
use cw_orchestrator.Core.ChainInfo.{ChainInfo}
use cw_orchestrator.Core.Error.{CwEnvError, not_wasm, wasm_not_found}

-- `s.ends_with(p)`
unfoldable pub ends_with : String → String → Bool
ends_with String.[] p = String.[] == p
ends_with (String.◌∷◌ c s) p = let rest = ends_with s p in (String.◌∷◌ c s == p) || rest

pub data BuildPostfix (Price : Type 0) : Type 0 where
  no_postfix : BuildPostfix Price
  chain_name chain_id : ChainInfo Price → BuildPostfix Price
  custom : String → BuildPostfix Price

-- `String::from`
unfoldable pub postfix_text : {Price : Type 0} → BuildPostfix Price → String
postfix_text no_postfix = ""
postfix_text (chain_name chain) = chain.network_info.chain_name
postfix_text (chain_id chain) = chain.chain_id
postfix_text (custom postfix) = postfix

abbrev pub arm_postfix : String
arm_postfix = "-aarch64"

abbrev joined : String → String → String
joined a b = String.◌++◌ a b

unfoldable pub is_artifact : String → String → Bool
is_artifact file_name contract_name = contains file_name contract_name

unfoldable pub is_default_artifact : String → String → Bool
is_default_artifact file_name contract_name = ends_with file_name (joined contract_name ".wasm")

unfoldable pub is_default_arm_artifact : String → String → Bool
is_default_arm_artifact file_name contract_name =
    ends_with file_name (joined (joined contract_name arm_postfix) ".wasm")

unfoldable pub is_artifact_with_build_postfix : String → String → String → Bool
is_artifact_with_build_postfix file_name contract_name build_postfix =
    is_artifact file_name contract_name && ends_with file_name (joined build_postfix ".wasm")

unfoldable pub is_arm_artifact_with_build_postfix : String → String → String → Bool
is_arm_artifact_with_build_postfix file_name contract_name build_postfix =
    is_artifact file_name contract_name
    && ends_with file_name (joined (joined build_postfix arm_postfix) ".wasm")

-- The four variables of the search.
pub record Candidates : Type 0 where
  pub wasm_with_postfix : Option String
  pub arm_wasm_with_postfix : Option String
  pub default_wasm : Option String
  pub arm_default_wasm : Option String

module _ (name build_postfix : String) where
  -- The tests after the first one, in their order; a later file takes the place of an earlier one.
  unfoldable pub note : String → Candidates → Candidates
  note f c =
      if is_arm_artifact_with_build_postfix f name build_postfix
      then record c { arm_wasm_with_postfix = some f }
      else if is_default_artifact f name
      then record c { default_wasm = some f }
      else if is_default_arm_artifact f name
      then record c { arm_default_wasm = some f }
      else c

  -- The loop; it breaks at the first file with the build postfix.
  unfoldable pub scan : List String → Candidates → Candidates
  scan [] c = c
  scan (f ∷ files) c =
      let rest = scan files (note f c) in
      if is_artifact_with_build_postfix f name build_postfix
      then record c { wasm_with_postfix = some f }
      else rest

-- `a.or(b)`
abbrev pub or : Option String → Option String → Option String
or (some a) b = some a
or none b = b

abbrev pub nothing : Candidates
nothing = record {
  wasm_with_postfix = none;
  arm_wasm_with_postfix = none;
  default_wasm = none;
  arm_default_wasm = none;
}

-- The choice among the candidates.
unfoldable pub chosen : Candidates → Option String
chosen c =
    or (or (or c.wasm_with_postfix c.arm_wasm_with_postfix) c.default_wasm) c.arm_default_wasm

-- `find_wasm_path_with_build_postfix`, in a directory `dir`; the path that is made of the name has the
-- extension, so `WasmPath::new` takes it.
unfoldable pub find_wasm_path_with_build_postfix :
    {Price : Type 0}
    → String
    → List String
    → String
    → BuildPostfix Price
    → Outcome CwEnvError String
find_wasm_path_with_build_postfix dir files name build_postfix =
    ok_or (chosen (scan name (postfix_text build_postfix) files nothing)) (wasm_not_found name dir)

-- `find_wasm_path`
unfoldable pub find_wasm_path :
    (Price : Type 0) → String → List String → String → Outcome CwEnvError String
find_wasm_path Price dir files name =
    find_wasm_path_with_build_postfix {Price = Price} dir files name no_postfix

-- `WasmPath::new`, of a path whose existence and extension are known.
unfoldable pub new_wasm_path : Bool → Option String → String → Outcome CwEnvError String
new_wasm_path false extension path = panic
new_wasm_path true none path = err not_wasm
new_wasm_path true (some extension) path = if extension == "wasm" then ok path else err not_wasm

-- The loop of `find_workspace_dir`, on the directory and those above it; `has_artifacts` is the test for
-- the directory `artifacts` in one of them. Without one the loop ends at the last.
unfoldable pub find_workspace_dir : (String → Bool) → String → List String → String
find_workspace_dir has_artifacts dir [] = dir
find_workspace_dir has_artifacts dir (parent ∷ parents) =
    let rest = find_workspace_dir has_artifacts parent parents in
    if has_artifacts dir then dir else rest
