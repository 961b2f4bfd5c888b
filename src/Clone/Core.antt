-- ===== src/Clone/Core.antt =====
-- packages/clone-testing/src/core.rs
-- As with the mock, the clones of the environment share an application and a state, which are the
-- world of its methods. The application is the one of clone-cw-multi-test.
pub mod Transactions
use cw_orchestrator.Common.{ℕ, String, Option, none, some, List, [], ◌∷◌, Outcome, ok, err, map_err}
use cw_orchestrator.Common.Exec.{Exec, pure, lift, puts, ◌>>=◌, ◌>>◌}
use cw_orchestrator.Core.Contract.{Chain}
use cw_orchestrator.Core.Error.{CwEnvError}
use cw_orchestrator.Core.Events.{AppResponse, app_response, Parsers, StdError}
use cw_orchestrator.Core.State.{StateInterface}
use cw_orchestrator.Mock.Core.{MockWorld, shared_state, stored_response}

-- The application: the storing of native code and of a wasm file, the four transactions, of a sender,
-- and the encoding of messages. `instantiate_contract` gives the address alone.
pub record CloneApp (App Source Msg Coin Salt : Type 0) : Type 0 where
  pub store_code : Source → App → ℕ × App
  pub store_wasm_code : String → App → ℕ × App
  pub execute_contract : String → String → Msg → List Coin → Exec App CwEnvError AppResponse
  pub instantiate_contract :
      ℕ → String → Msg → List Coin → String → Option String → Exec App CwEnvError String
  pub instantiate2 :
      String
      → Option String
      → ℕ
      → String
      → String
      → List Coin
      → Salt
      → Exec App CwEnvError AppResponse
  pub migrate_contract : String → String → Msg → ℕ → Exec App CwEnvError AppResponse
  pub to_json_binary : Msg → Outcome CwEnvError String
  pub to_string : ℕ → String
  pub std_error : StdError → String

-- The event that is added after an instantiation.
abbrev pub created_response : String → AppResponse
created_response address = record {
  events =
      record {
        ty = "instantiate";
        attributes = record { key = "_contract_address"; value = address } ∷ [];
      }
      ∷ [];
  payload = none;
}

abbrev pub label_or : Option String → String
label_or none = "contract_init"
label_or (some label) = label

module _ {App S Source Msg Coin Salt : Type 0} (t : CloneApp App Source Msg Coin Salt) where
  -- A method of the application leaves the state alone.
  abbrev on_app : {A : Type 0} → Exec App CwEnvError A → Exec (MockWorld App S) CwEnvError A
  on_app m w = let (r, app) = m w.app in (r, record { app = app; state = w.state })

  unfoldable pub upload : Source → Exec (MockWorld App S) CwEnvError AppResponse
  upload source w =
      let (code_id, app) = t.store_code source w.app in
      (ok (stored_response (t.to_string code_id)), record { app = app; state = w.state })

  unfoldable pub execute :
      String → Msg → List Coin → String → Exec (MockWorld App S) CwEnvError AppResponse
  execute sender msg coins address = on_app (t.execute_contract sender address msg coins)

  unfoldable pub instantiate :
      String
      → ℕ
      → Msg
      → Option String
      → Option String
      → List Coin
      → Exec (MockWorld App S) CwEnvError AppResponse
  instantiate sender code_id msg label admin coins =
      on_app (t.instantiate_contract code_id sender msg coins (label_or label) admin) >>= λ address.
      pure (created_response address)

  unfoldable pub instantiate2 :
      String
      → ℕ
      → Msg
      → Option String
      → Option String
      → List Coin
      → Salt
      → Exec (MockWorld App S) CwEnvError AppResponse
  instantiate2 sender code_id msg label admin coins salt = do
    encoded ← lift (t.to_json_binary msg)
    on_app (t.instantiate2 sender admin code_id (label_or label) encoded coins salt)

  unfoldable pub migrate : String → Msg → ℕ → String → Exec (MockWorld App S) CwEnvError AppResponse
  migrate sender msg new_code_id address =
      on_app (t.migrate_contract sender address msg new_code_id)

  store_wasm : String → Exec (MockWorld App S) CwEnvError ℕ
  store_wasm wasm w =
      let (code_id, app) = t.store_wasm_code wasm w.app in
      (ok code_id, record { app = app; state = w.state })

  -- `upload_wasm`, of what reading the file gives, for the contract with the id.
  unfoldable pub upload_wasm :
      StateInterface S
      → Outcome CwEnvError String
      → String
      → Exec (MockWorld App S) CwEnvError AppResponse
  unfolding store_wasm
  upload_wasm i file contract_id = do
    wasm ← lift file
    code_id ← store_wasm wasm
    puts (λ w. (shared_state i).set_code_id w contract_id code_id)
    pure (stored_response (t.to_string code_id))

  -- The trait `TxHandler` of an environment with a sender, over its shared state.
  abbrev pub clone_chain :
      StateInterface S
      → Parsers
      → String
      → Chain (MockWorld App S) Source Msg Coin Salt AppResponse CwEnvError
  clone_chain i parsers sender = record {
    upload_tx = upload;
    execute_tx = execute sender;
    instantiate_tx = instantiate sender;
    instantiate2_tx = instantiate2 sender;
    migrate_tx = migrate sender;
    into = λ e. e;
    std_error = t.std_error;
    response = app_response;
    parsers = parsers;
    state = shared_state i;
  }
