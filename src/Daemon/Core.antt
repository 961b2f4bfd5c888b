-- ===== src/Daemon/Core.antt =====
-- cw-orch-daemon/src/core.rs
-- The transactions of `DaemonAsyncBase` over a sender, and the waiting for blocks. Conversions and
-- encodings of third-party crates are operations; a duration is a value of a type `T`. Heights are not
-- near 2 ^ 64. The two loops that ask the node again take fuel.
pub mod Waiting
use cw_orchestrator.Common.{
  ℕ, zero, suc, ◌+◌, String, Bool, true, false, Option, none, some, List, [], ◌∷◌, Outcome, ok, err,
  panic, if◌then◌else◌, leb, unwrap,
}
use cw_orchestrator.Common.Exec.{Exec, pure, lift, ◌>>=◌, ◌>>◌}
use cw_orchestrator.Core.Events.{IndexResponse, Parsers, StdError, uploaded_code_id}
use cw_orchestrator.Daemon.Error.{DaemonError}

-- The messages that are handed to the sender.
pub data WasmMsg (Account Bytes Coin Salt : Type 0) : Type 0 where
  execute_contract : Account → Account → Bytes → List Coin → WasmMsg Account Bytes Coin Salt
  instantiate_contract :
      ℕ → String → Option Account → Account → Bytes → List Coin → WasmMsg Account Bytes Coin Salt
  instantiate_contract2 :
      ℕ
      → String
      → String
      → String
      → Bytes
      → List Coin
      → Salt
      → Bool
      → WasmMsg Account Bytes Coin Salt
  migrate_contract : Account → Account → Bytes → ℕ → WasmMsg Account Bytes Coin Salt
  store_code : Account → Bytes → WasmMsg Account Bytes Coin Salt

-- `TxSender`, with its address, and `commit_tx` of one message without a memo.
pub record Sender (N Account Bytes Coin Salt Tx : Type 0) : Type 0 where
  pub account_id : Account
  pub address : String
  pub commit_tx : WasmMsg Account Bytes Coin Salt → Exec N DaemonError Tx

-- `AccountId::from_str`, `serde_json::to_vec`, `parse_cw_coins`, `proto_parse_cw_coins`, and the
-- compressed contents of a wasm file.
pub record Conversions (Account Msg Bytes Coin Source : Type 0) : Type 0 where
  pub account_of : String → Outcome DaemonError Account
  pub to_vec : Msg → Outcome DaemonError Bytes
  pub parse_cw_coins : List Coin → Outcome DaemonError (List Coin)
  pub proto_parse_cw_coins : List Coin → Outcome DaemonError (List Coin)
  pub wasm_byte_code : Source → Outcome DaemonError Bytes

-- The queries of a node, and the clock. `F` are the floating-point numbers, with the literal 0.9; the
-- average speed is multiplied by its argument, if there is one.
pub record Node (N F T : Type 0) : Type 0 where
  pub block_height : Exec N DaemonError ℕ
  pub average_block_speed : Option F → Exec N DaemonError T
  pub nine_tenths : F
  pub mul : T → ℕ → T
  pub sleep : T → N → N
  pub code : ℕ → N → Bool × N

module _ {N F T : Type 0} (node : Node N F T) where
  pause : T → Exec N DaemonError (Unit {0})
  pause t n = (ok tt, node.sleep t n)

  -- The loop; `false` means that the fuel ran out.
  unfoldable pub wait_until : ℕ → T → ℕ → ℕ → Exec N DaemonError Bool
  unfolding pause
  wait_until zero speed end_height last_height = pure (leb end_height last_height)
  wait_until (suc fuel) speed end_height last_height =
      let again = pause speed >> (node.block_height >>= wait_until fuel speed end_height) in
      if leb end_height last_height then pure true else again

  unfoldable pub wait_blocks : ℕ → ℕ → Exec N DaemonError Bool
  unfolding pause
  wait_blocks fuel amount = do
    last_height ← node.block_height
    speed ← node.average_block_speed (some node.nine_tenths)
    pause (node.mul speed amount)
    wait_until fuel speed (last_height + amount) last_height

  unfoldable pub next_block : ℕ → Exec N DaemonError Bool
  next_block fuel = wait_blocks fuel 1

  -- Whether the node has the code.
  has_code : ℕ → Exec N DaemonError Bool
  has_code code_id n = let (known, n') = node.code code_id n in (ok known, n')

  -- The wait for the node to know an uploaded code; each round waits for a block.
  unfoldable pub wait_for_code : ℕ → ℕ → ℕ → Exec N DaemonError Bool
  unfolding has_code
  wait_for_code zero fuel code_id = pure false
  wait_for_code (suc rounds) fuel code_id = has_code code_id >>= λ known.
      if known
      then pure true
      else (next_block fuel >>= λ waited.
          if waited then wait_for_code rounds fuel code_id else pure false)

-- `uploaded_code_id().unwrap()`
unwrap_code : Outcome StdError ℕ → Outcome DaemonError ℕ
unwrap_code (ok n) = ok n
unwrap_code (err e) = panic
unwrap_code panic = panic

abbrev label_or : Option String → String
label_or none = "instantiate_contract"
label_or (some label) = label

-- `FromStr::from_str(a.as_str()).unwrap()`, of an admin
unwrap_account :
    {Account : Type 0} → Outcome DaemonError Account → Outcome DaemonError (Option Account)
unwrap_account (ok a) = ok (some a)
unwrap_account (err e) = panic
unwrap_account panic = panic

abbrev or_empty : Option String → String
or_empty none = ""
or_empty (some a) = a

module _ {N Account Msg Bytes Coin Salt Source Tx : Type 0}
    (sender : Sender N Account Bytes Coin Salt Tx)
    (to : Conversions Account Msg Bytes Coin Source) where
  unfoldable pub execute : Msg → List Coin → String → Exec N DaemonError Tx
  execute exec_msg coins contract_address = do
    contract ← lift (to.account_of contract_address)
    msg ← lift (to.to_vec exec_msg)
    funds ← lift (to.parse_cw_coins coins)
    sender.commit_tx (execute_contract sender.account_id contract msg funds)

  admin_account : Option String → Outcome DaemonError (Option Account)
  unfolding unwrap_account
  admin_account none = ok none
  admin_account (some a) = unwrap_account (to.account_of a)

  unfoldable pub instantiate :
      ℕ → Msg → Option String → Option String → List Coin → Exec N DaemonError Tx
  unfolding admin_account
  instantiate code_id init_msg label admin coins = do
    admin_id ← lift (admin_account admin)
    msg ← lift (to.to_vec init_msg)
    funds ← lift (to.parse_cw_coins coins)
    sender.commit_tx
        (instantiate_contract code_id (label_or label) admin_id sender.account_id msg funds)

  unfoldable pub instantiate2 :
      ℕ → Msg → Option String → Option String → List Coin → Salt → Exec N DaemonError Tx
  instantiate2 code_id init_msg label admin coins salt = do
    msg ← lift (to.to_vec init_msg)
    funds ← lift (to.proto_parse_cw_coins coins)
    sender.commit_tx (
        instantiate_contract2 code_id (label_or label) (or_empty admin) sender.address msg funds
          salt false)

  unfoldable pub migrate : Msg → ℕ → String → Exec N DaemonError Tx
  migrate migrate_msg new_code_id contract_address = do
    contract ← lift (to.account_of contract_address)
    msg ← lift (to.to_vec migrate_msg)
    sender.commit_tx (migrate_contract sender.account_id contract msg new_code_id)

  -- `upload`, with the rounds and the fuel of its waiting; the second component tells whether the node
  -- knew the code within them.
  unfoldable pub upload :
      {F T : Type 0}
      → Node N F T
      → IndexResponse Tx
      → Parsers
      → ℕ
      → ℕ
      → Source
      → Exec N DaemonError (Tx × Bool)
  unfolding unwrap_code
  upload node response parsers rounds fuel source = do
    wasm_byte_code ← lift (to.wasm_byte_code source)
    result ← sender.commit_tx (store_code sender.account_id wasm_byte_code)
    code_id ← lift (unwrap_code (uploaded_code_id response parsers result))
    known ← wait_for_code node rounds fuel code_id
    pure (result, known)
