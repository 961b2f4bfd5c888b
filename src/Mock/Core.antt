-- ===== src/Mock/Core.antt =====
-- packages/cw-orch-mock/src/core.rs, and the instance of `StateInterface` for a shared state in
-- packages/cw-orch-core/src/environment/state.rs
-- The clones of a mock share its application and its state through references; what these hold is the
-- world of its methods.
pub mod Uploads
use cw_orchestrator.Common.{ℕ, String, Option, none, some, List, [], ◌∷◌, Outcome, ok, err, map_ok}
use cw_orchestrator.Common.Exec.{Exec, pure, lift, puts, ◌>>=◌, ◌>>◌, map_error}
use cw_orchestrator.Core.Error.{CwEnvError, cosmwasm_error}
use cw_orchestrator.Core.Events.{
  Event, AppResponse, app_response, Parsers, StdError, uploaded_code_id,
}
use cw_orchestrator.Core.State.{StateInterface}
use cw_orchestrator.Core.Contract.{Chain}

-- `WasmMsg::Instantiate` and `WasmMsg::Instantiate2`, with the message encoded.
pub data WasmMsg (Coin Salt : Type 0) : Type 0 where
  instantiate : Option String → ℕ → String → String → List Coin → WasmMsg Coin Salt
  instantiate2 : Option String → ℕ → String → String → List Coin → Salt → WasmMsg Coin Salt

-- The application of cw-multi-test, and the encoding of messages. Errors are converted already.
pub record MultiTestApp (App Source Msg Coin Salt : Type 0) : Type 0 where
  pub store_code : Source → App → ℕ × App
  pub execute_contract : String → String → Msg → List Coin → Exec App CwEnvError AppResponse
  pub execute : String → WasmMsg Coin Salt → Exec App CwEnvError AppResponse
  pub migrate_contract : String → String → Msg → ℕ → Exec App CwEnvError AppResponse
  pub set_block_chain_id : String → App → App
  pub to_json_binary : Msg → Outcome CwEnvError String
  pub to_string : ℕ → String
  pub std_error : StdError → String

-- What `MockBase` refers to; the sender belongs to each clone.
pub record MockWorld (App S : Type 0) : Type 0 where
  pub app : App
  pub state : S

-- `RefCell<S>`: the methods act on what is shared.
module _ {App S : Type 0} (i : StateInterface S) where
  abbrev with_state : MockWorld App S → S → MockWorld App S
  with_state w s = record { app = w.app; state = s }

  abbrev pub shared_state : StateInterface (MockWorld App S)
  shared_state = record {
    get_address = λ w k. i.get_address w.state k;
    set_address = λ w k a. map_ok (with_state w) (i.set_address w.state k a);
    remove_address = λ w k. map_ok (with_state w) (i.remove_address w.state k);
    get_code_id = λ w k. i.get_code_id w.state k;
    set_code_id = λ w k c. map_ok (with_state w) (i.set_code_id w.state k c);
    remove_code_id = λ w k. map_ok (with_state w) (i.remove_code_id w.state k);
    get_all_addresses = λ w. i.get_all_addresses w.state;
    get_all_code_ids = λ w. i.get_all_code_ids w.state;
  }

abbrev label_or : Option String → String
label_or none = "contract_init"
label_or (some label) = label

-- The response of an upload, with the code id added to its events as a text.
abbrev pub stored_response : String → AppResponse
stored_response code_id = record {
  events =
      record { ty = "store_code"; attributes = record { key = "code_id"; value = code_id } ∷ [] }
      ∷ [];
  payload = none;
}

module _ {App S Source Msg Coin Salt : Type 0} (t : MultiTestApp App Source Msg Coin Salt) where
  -- A method of the application leaves the state alone.
  abbrev pub on_app : {A : Type 0} → Exec App CwEnvError A → Exec (MockWorld App S) CwEnvError A
  on_app m w = let (r, app) = m w.app in (r, record { app = app; state = w.state })

  -- `upload`
  unfoldable pub upload : Source → Exec (MockWorld App S) CwEnvError AppResponse
  upload source w =
      let (code_id, app) = t.store_code source w.app in
      (ok (stored_response (t.to_string code_id)), record { app = app; state = w.state })

  -- `execute`, of the clone with a sender.
  unfoldable pub execute :
      String → Msg → List Coin → String → Exec (MockWorld App S) CwEnvError AppResponse
  execute sender msg coins address = on_app (t.execute_contract sender address msg coins)

  unfoldable pub instantiate_ :
      String
      → ℕ
      → Msg
      → Option String
      → Option String
      → List Coin
      → Exec (MockWorld App S) CwEnvError AppResponse
  instantiate_ sender code_id msg label admin coins = do
    encoded ← lift (t.to_json_binary msg)
    on_app (t.execute sender (instantiate admin code_id (label_or label) encoded coins))

  unfoldable pub instantiate2_ :
      String
      → ℕ
      → Msg
      → Option String
      → Option String
      → List Coin
      → Salt
      → Exec (MockWorld App S) CwEnvError AppResponse
  instantiate2_ sender code_id msg label admin coins salt = do
    encoded ← lift (t.to_json_binary msg)
    on_app (t.execute sender (instantiate2 admin code_id (label_or label) encoded coins salt))

  unfoldable pub migrate : String → Msg → ℕ → String → Exec (MockWorld App S) CwEnvError AppResponse
  migrate sender msg new_code_id address =
      on_app (t.migrate_contract sender address msg new_code_id)

  -- `upload_custom`, which registers the code id itself.
  unfoldable pub upload_custom :
      StateInterface S → Parsers → String → Source → Exec (MockWorld App S) CwEnvError AppResponse
  upload_custom i parsers contract_id source = do
    resp ← upload source
    code_id ←
        map_error (λ e. cosmwasm_error (t.std_error e))
          (lift (uploaded_code_id app_response parsers resp))
    puts (λ w. (shared_state i).set_code_id w contract_id code_id)
    pure resp

  -- The trait `TxHandler` of a mock with a sender, over its shared state.
  abbrev pub mock_chain :
      StateInterface S
      → Parsers
      → String
      → Chain (MockWorld App S) Source Msg Coin Salt AppResponse CwEnvError
  mock_chain i parsers sender = record {
    upload_tx = upload;
    execute_tx = execute sender;
    instantiate_tx = instantiate_ sender;
    instantiate2_tx = instantiate2_ sender;
    migrate_tx = migrate sender;
    into = λ e. e;
    std_error = t.std_error;
    response = app_response;
    parsers = parsers;
    state = shared_state i;
  }

-- `with_chain_id`, of a mock with the default state.
unfoldable pub with_chain_id :
    {App S Source Msg Coin Salt : Type 0}
    → MultiTestApp App Source Msg Coin Salt
    → (S → String → S)
    → MockWorld App S
    → String
    → MockWorld App S
with_chain_id t set_chain_id w chain_id = record {
  app = t.set_block_chain_id chain_id w.app;
  state = set_chain_id w.state chain_id;
}
