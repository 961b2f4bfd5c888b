-- ===== src/Core/Deploy/Imported.antt =====
-- The state that a crate brings with it: `set_contracts_state` and `get_all_deployed_chains` of
-- packages/cw-orch-core/src/contract/deploy.rs. The file of the crate is read by `read_json`; the
-- values of serde_json are operations. `read_json` gives nothing where it fails.
pub mod Reading
use cw_orchestrator.Common.{
  ℕ, String, Bool, true, false, Option, none, some, List, [], ◌∷◌, ◌++◌, map, Map, Outcome, ok, err,
  panic, ◌>>=◌, if◌then◌else◌, traverse, unwrap,
}
use cw_orchestrator.Common.Dict
use cw_orchestrator.Core.Contract.{
  Chain, Contract, address, code_id, set_default_address, set_default_code_id,
}
use cw_orchestrator.Daemon.Json.{Json, index}

-- `EnvironmentInfo`
pub record EnvironmentInfo : Type 0 where
  pub chain_name : String
  pub chain_id : String
  pub deployment_id : String

-- `r.is_err()`, of a call that may panic.
unfoldable pub is_err : {E F A : Type 0} → Outcome E A → Outcome F Bool
is_err (ok a) = ok false
is_err (err e) = ok true
is_err panic = panic

module _ (j : Json) where
  -- The state that is used: the one that is given, or that of the crate's file if it can be read.
  unfoldable pub state_to_use :
      Option j.Value → Option String → (String → Option j.Value) → Option j.Value
  state_to_use (some custom) path read_json = some custom
  state_to_use none none read_json = none
  state_to_use none (some path) read_json = read_json path

  -- The entry of a contract in a table of its chain; what is missing on the way is null.
  unfoldable pub entry : j.Value → EnvironmentInfo → String → String → Option j.Value
  entry state info table id =
      j.get (index j (index j (index j state info.chain_name) info.chain_id) table) id

  with_code_id : Contract → Option ℕ → Contract
  with_code_id c none = c
  with_code_id c (some n) = set_default_code_id c n

  with_address : Contract → Option String → Contract
  with_address c none = c
  with_address c (some a) = set_default_address c a

  -- An entry of another type than the one expected is passed over.
  unfoldable pub as_code_id : Option j.Value → Option ℕ
  as_code_id none = none
  as_code_id (some v) = j.as_u64 v

  unfoldable pub as_address : Option j.Value → Option String
  as_address none = none
  as_address (some v) = j.as_str v

  module _ {W Source Msg Coin Salt R E F : Type 0} (chain : Chain W Source Msg Coin Salt R E)
      (info : EnvironmentInfo) (state : j.Value) (w : W) where
    unfoldable pub import_code_id : Contract → Outcome F Contract
    unfolding with_code_id set_default_code_id
    import_code_id c = is_err (code_id chain c w) >>= λ missing.
        ok (if missing then with_code_id c (as_code_id (entry state info "code_ids" c.id)) else c)

    unfoldable pub import_address : Contract → Outcome F Contract
    unfolding with_address set_default_address
    import_address c = is_err (address chain c w) >>= λ missing. ok (
        if missing
        then with_address c (as_address (entry state info info.deployment_id c.id))
        else c)

    -- The round of the loop for one contract.
    unfoldable pub import_state : Contract → Outcome F Contract
    import_state c = import_code_id c >>= import_address

  -- `set_contracts_state`, of contracts on one chain.
  unfoldable pub set_contracts_state :
      {W Source Msg Coin Salt R E F : Type 0}
      → Chain W Source Msg Coin Salt R E
      → EnvironmentInfo
      → Option j.Value
      → W
      → List Contract
      → Outcome F (List Contract)
  set_contracts_state chain info none w contracts = ok contracts
  set_contracts_state chain info (some state) w contracts =
      traverse (import_state chain info state w) contracts

  -- The keys of the second level of the file.
  chain_ids : j.Value → Outcome String (List String)
  chain_ids v = unwrap (j.as_object v) >>= λ o. ok (map (λ e. e.0) (Dict.entries o))

  collect : List (List String) → List String
  collect [] = []
  collect (l ∷ ls) = l ++ collect ls

  deployed_in : Option j.Value → Outcome String (List String)
  unfolding chain_ids collect
  deployed_in (some v) = unwrap (j.as_object v) >>= λ o.
      traverse (λ e. chain_ids e.1) (Dict.entries o) >>= λ ids. ok (collect ids)
  deployed_in none = ok []

  -- `get_all_deployed_chains`
  unfoldable pub get_all_deployed_chains :
      Option String → (String → Option j.Value) → Outcome String (List String)
  unfolding deployed_in
  get_all_deployed_chains none read_json = ok []
  get_all_deployed_chains (some path) read_json = deployed_in (read_json path)
