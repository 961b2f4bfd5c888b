-- ===== src/Daemon/Wallet.antt =====
-- cw-orch-daemon/src/senders/cosmos.rs, with `assert_broadcast_code_cosm_response` of tx_broadcaster.rs
-- Keys, signatures, protobuf messages and the clients of the node are operations on a network state
-- `N`, which the terminal is part of; floating-point numbers are a type `F`.
pub mod Balance
pub mod Sending
use cw_orchestrator.Common.{
  ℕ, zero, suc, ◌+◌, String, Bool, true, false, Option, none, some, List, [], ◌∷◌, Outcome, ok, err,
  panic, eqb, leb, ltb, if◌then◌else◌, ok_or, first, unwrap, map_err,
}
use cw_orchestrator.Common.Exec.{Exec, pure, lift, throw, ◌>>=◌, ◌>>◌}
use cw_orchestrator.Common.Text.{contains}
use cw_orchestrator.Core.ChainInfo.{ChainInfo, ChainKind, local, testnet, mainnet, unspecified}
use cw_orchestrator.Core.Error.{CwEnvError, env_var_not_present_named}
use cw_orchestrator.Daemon.Broadcaster.{broadcast, broadcast_helper, add_strategy}
use cw_orchestrator.Daemon.Broadcaster.Strategies.{
  insufficient_fee_strategy, account_sequence_strategy,
}
use cw_orchestrator.Daemon.Error.{Coin, DaemonError, not_enough_balance, tx_failed}
use cw_orchestrator.Daemon.TxBuilder.{TxResponse, TxBuilder, Session, Wallet, new, on_net, simulate}

-- `f64`, with the literals of the source: GAS_BUFFER, SMALL_GAS_BUFFER and what is added to the price.
pub record Floats (F : Type 0) : Type 0 where
  pub of_nat : ℕ → F
  pub times : F → F → F
  pub plus : F → F → F
  pub maximum : F → F → F
  pub to_u64 : F → ℕ
  pub to_u128 : F → ℕ
  pub gas_buffer : F
  pub small_gas_buffer : F
  pub price_margin : F

abbrev buffer_threshold : ℕ
buffer_threshold = 200000

-- The environment variables that the sender reads.
pub record Settings (F : Type 0) : Type 0 where
  pub gas_buffer : Option F
  pub min_gas : ℕ
  pub wallet_balance_assertion : Bool
  pub manual_interaction : Bool

-- The options of the sender; `hd_index` and the key only go to the key's derivation.
pub record CosmosOptions : Type 0 where
  pub fee_granter : Option String
  pub authz_granter : Option String

-- `set_authz_granter` and `set_fee_granter`
unfoldable pub set_authz_granter : CosmosOptions → String → CosmosOptions
set_authz_granter o granter = record { fee_granter = o.fee_granter; authz_granter = some granter }

unfoldable pub set_fee_granter : CosmosOptions → String → CosmosOptions
set_fee_granter o granter = record { fee_granter = some granter; authz_granter = o.authz_granter }

module _ {F : Type 0} (f : Floats F) (settings : Settings F) where
  buffered : Option F → ℕ → F
  buffered (some gas_buffer) gas = f.times (f.of_nat gas) gas_buffer
  buffered none gas =
      if ltb gas buffer_threshold
      then f.times (f.of_nat gas) f.small_gas_buffer
      else f.times (f.of_nat gas) f.gas_buffer

  gas_and_fee : F → F → ℕ × ℕ
  gas_and_fee gas_price gas_expected =
      (f.to_u64 gas_expected, f.to_u128 (f.times gas_expected (f.plus gas_price f.price_margin)))

  -- `get_fee_from_gas`
  unfoldable pub get_fee_from_gas : F → ℕ → ℕ × ℕ
  unfolding buffered gas_and_fee
  get_fee_from_gas gas_price gas =
      gas_and_fee gas_price
        (f.maximum (f.of_nat settings.min_gas) (buffered settings.gas_buffer gas))

-- The node and the terminal: the balances in a denomination, a line of input in small letters, the
-- height, and the search for a transaction by its hash, whose answer is of a type `Tx`. `exec_msg` wraps
-- messages for the granter, `build_body` is the body of a transaction.
pub record Network (N Msg Body Tx : Type 0) : Type 0 where
  pub balance : String → Exec N DaemonError (List Coin)
  pub read_line_lowercase : Exec N DaemonError String
  pub block_height : Exec N DaemonError ℕ
  pub find_tx : String → Exec N DaemonError Tx
  pub code_of : Tx → ℕ
  pub raw_log_of : Tx → String
  pub exec_msg : List Msg → Msg
  pub build_body : List Msg → Option String → ℕ → Body

-- `assert_broadcast_code_cosm_response`
unfoldable pub assert_broadcast_code_cosm_response :
    {N Msg Body Tx : Type 0} → Network N Msg Body Tx → Tx → Outcome DaemonError Tx
assert_broadcast_code_cosm_response net tx =
    if eqb (net.code_of tx) 0 then ok tx else err (tx_failed (net.code_of tx) (net.raw_log_of tx))

module _ {N Msg Body Tx : Type 0} (net : Network N Msg Body Tx) (manual_interaction : Bool) where
  -- What is done about a balance that is too small; `again` asks the node anew.
  answered : Coin → Coin → Exec N DaemonError Bool → String → Exec N DaemonError Bool
  answered fee balance again input =
      if contains input "y" then again else throw (not_enough_balance fee balance)

  missing : Bool → Coin → Coin → Exec N DaemonError Bool → Exec N DaemonError Bool
  unfolding answered
  missing true fee balance again = net.read_line_lowercase >>= answered fee balance again
  missing false fee balance again = throw (not_enough_balance fee balance)

  covered : Coin → Coin → Exec N DaemonError Bool → Exec N DaemonError Bool
  unfolding missing
  covered fee balance again =
      if leb fee.amount balance.amount
      then pure true
      else missing manual_interaction fee balance again

  -- `assert_wallet_balance`, on the number of answers that may ask for another try; `false` means that
  -- they ran out.
  unfoldable pub assert_wallet_balance : ℕ → Coin → Exec N DaemonError Bool
  unfolding covered
  assert_wallet_balance zero fee = pure false
  assert_wallet_balance (suc tries) fee = do
    balances ← net.balance fee.denom
    balance ← lift (unwrap (first balances))
    covered fee balance (assert_wallet_balance tries fee)

abbrev pub timeout_blocks : ℕ
timeout_blocks = 10

-- The sender over the interface that the transaction builder asks of a wallet; `show` and `show_coin` are
-- the texts of numbers and coins.
module _ {N Msg Body Raw Tx : Type 0} (net : Network N Msg Body Tx) (wallet : Wallet N Body Raw)
    (options : CosmosOptions) (show : ℕ → String) (show_coin : Coin → String) where
  -- The messages go to the chain as one, where a granter is set.
  authz_wrapped : Option String → List Msg → List Msg
  authz_wrapped none msgs = msgs
  authz_wrapped (some granter) msgs = net.exec_msg msgs ∷ []

  -- `TxBuilder::new(TxBuilder::build_body(..))`, at a height
  unfoldable pub prepared : List Msg → Option String → ℕ → TxBuilder Body
  unfolding authz_wrapped
  prepared msgs memo height =
      new (net.build_body (authz_wrapped options.authz_granter msgs) memo (height + timeout_blocks))

  -- The broadcaster with its two strategies, from a new builder.
  broadcast_with : ℕ → TxBuilder Body → Exec N DaemonError (Option TxResponse)
  broadcast_with fuel builder n =
      let (r, s) =
        broadcast (broadcast_helper wallet) (on_net wallet.average_block_speed) fuel
          (add_strategy (add_strategy [] insufficient_fee_strategy)
            (account_sequence_strategy show show_coin))
          (record { builder = builder; net = n }) in
      (r, s.net)

  found : Option TxResponse → Exec N DaemonError (Option Tx)
  found none = pure none
  found (some response) = do
    tx ← net.find_tx response.txhash
    checked ← lift (assert_broadcast_code_cosm_response net tx)
    pure (some checked)

  -- `commit_tx_any`; `none` means that the fuel of the broadcaster ran out.
  unfoldable pub commit_tx_any : ℕ → List Msg → Option String → Exec N DaemonError (Option Tx)
  unfolding broadcast_with found
  commit_tx_any fuel msgs memo = do
    height ← net.block_height
    response ← broadcast_with fuel (prepared msgs memo height)
    found response

-- `Wallet::simulate`, which does not wrap the messages, and `has_enough_balance_for_gas`.
module _ {N Msg Body Raw Tx F : Type 0} (net : Network N Msg Body Tx) (wallet : Wallet N Body Raw)
    (f : Floats F) (settings : Settings F) (chain_info : ChainInfo F) where
  fee_of : ℕ → Coin
  fee_of amount = record { amount = amount; denom = chain_info.gas_denom }

  simulated_gas : TxBuilder Body → Exec N DaemonError ℕ
  simulated_gas builder n =
      let (r, s) = simulate wallet (record { builder = builder; net = n }) in (r, s.net)

  asserted : ℕ → Bool → Coin → Exec N DaemonError Bool
  asserted tries false fee = pure true
  asserted tries true fee = assert_wallet_balance net settings.manual_interaction tries fee

  unfoldable pub simulate_fee :
      ℕ → List Msg → Option String → Exec N DaemonError (Bool × (ℕ × Coin))
  unfolding fee_of simulated_gas asserted
  simulate_fee tries msgs memo = do
    height ← net.block_height
    gas_needed ← simulated_gas (new (net.build_body msgs memo (height + timeout_blocks)))
    let gas_and_amount = get_fee_from_gas f settings chain_info.gas_price gas_needed
    enough ← asserted tries settings.wallet_balance_assertion (fee_of gas_and_amount.1)
    pure (enough, (gas_and_amount.0, fee_of gas_and_amount.1))

  unfoldable pub has_enough_balance_for_gas : ℕ → ℕ → Exec N DaemonError Bool
  unfolding fee_of
  has_enough_balance_for_gas tries gas =
      assert_wallet_balance net settings.manual_interaction tries
        (fee_of (get_fee_from_gas f settings chain_info.gas_price gas).1)

-- `get_mnemonic_env_name`
unfoldable pub get_mnemonic_env_name : {E : Type 0} → ChainKind → Outcome E String
get_mnemonic_env_name local = ok "LOCAL_MNEMONIC"
get_mnemonic_env_name testnet = ok "TEST_MNEMONIC"
get_mnemonic_env_name mainnet = ok "MAIN_MNEMONIC"
get_mnemonic_env_name unspecified = panic

module _ (var : String → Option String) where
  mnemonic_of : ChainKind → Option String
  mnemonic_of local = var "LOCAL_MNEMONIC"
  mnemonic_of testnet = var "TEST_MNEMONIC"
  mnemonic_of mainnet = var "MAIN_MNEMONIC"
  mnemonic_of unspecified = none

  named_or : Option String → Outcome CwEnvError String → Outcome CwEnvError String
  named_or o (ok name) = ok_or o (env_var_not_present_named name)
  named_or o (err e) = err e
  named_or o panic = panic

  -- `get_mnemonic_env`, which names the variable even where it is set.
  unfoldable pub get_mnemonic_env : ChainKind → Outcome CwEnvError String
  unfolding mnemonic_of named_or
  get_mnemonic_env kind = named_or (mnemonic_of kind) (get_mnemonic_env_name kind)
