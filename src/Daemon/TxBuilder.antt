-- ===== src/Daemon/TxBuilder.antt =====
-- cw-orch-daemon/src/tx_builder.rs
-- The wallet (senders/cosmos.rs) and the node behind it are operations on a network state `N`.
-- Amounts are `u128`, gas and sequence numbers `u64`; the builder only hands them on.
pub mod Fees
use cw_orchestrator.Common.{ℕ, String, Option, none, some, Outcome, ok, err, ◌≡◌}
use cw_orchestrator.Common.Exec.{Exec, pure, lift, gets, ◌>>=◌, ◌>>◌}
use cw_orchestrator.Daemon.Error.{DaemonError}

-- The fields of the node's answer that the program reads.
pub record TxResponse : Type 0 where
  pub code : ℕ
  pub raw_log : String
  pub txhash : String

pub record TxBuilder (Body : Type 0) : Type 0 where
  pub body : Body
  pub fee_amount : Option ℕ
  pub gas_limit : Option ℕ
  pub sequence : Option ℕ

pub record BaseAccount : Type 0 where
  pub account_number : ℕ
  pub sequence : ℕ

-- What a signed transaction is made of.
pub record Unsigned (Body : Type 0) : Type 0 where
  pub body : Body
  pub fee : ℕ
  pub gas : ℕ
  pub sequence : ℕ
  pub account_number : ℕ

-- `get_fee_from_gas` gives the gas to ask for and the fee. `sign_tx` is the fee, the signer's
-- information, the sign document and the signature of the end of `build`.
pub record Wallet (N Body Raw : Type 0) : Type 0 where
  pub base_account : Exec N DaemonError BaseAccount
  pub calculate_gas : Body → ℕ → ℕ → Exec N DaemonError ℕ
  pub get_fee_from_gas : ℕ → Outcome DaemonError (ℕ × ℕ)
  pub sign_tx : Unsigned Body → Outcome DaemonError Raw
  pub broadcast_tx : Raw → Exec N DaemonError TxResponse
  pub average_block_speed : Exec N DaemonError ℕ

-- A transaction in the making: the builder, which the caller may change, and the network.
pub record Session (N Body : Type 0) : Type 0 where
  pub builder : TxBuilder Body
  pub net : N

-- `TxBuilder::new`
unfoldable pub new : {Body : Type 0} → Body → TxBuilder Body
new body = record { body = body; fee_amount = none; gas_limit = none; sequence = none }

unfoldable pub fee_amount : {Body : Type 0} → TxBuilder Body → ℕ → TxBuilder Body
fee_amount b n = record b { fee_amount = some n }

unfoldable pub gas_limit : {Body : Type 0} → TxBuilder Body → ℕ → TxBuilder Body
gas_limit b n = record b { gas_limit = some n }

unfoldable pub sequence : {Body : Type 0} → TxBuilder Body → ℕ → TxBuilder Body
sequence b n = record b { sequence = some n }

abbrev pub value_or : Option ℕ → ℕ → ℕ
value_or none n = n
value_or (some m) n = m

-- An action of the wallet on the network leaves the builder alone.
abbrev pub on_net : {N Body A : Type 0} → Exec N DaemonError A → Exec (Session N Body) DaemonError A
on_net m s = let (r, n) = m s.net in (r, record s { net = n })

module _ {N Body Raw : Type 0} (wallet : Wallet N Body Raw) where
  -- `TxBuilder::simulate`
  unfoldable pub simulate : Exec (Session N Body) DaemonError ℕ
  simulate = do
    account ← on_net wallet.base_account
    b ← gets (λ s. ok s.builder)
    on_net
        (wallet.calculate_gas b.body (value_or b.sequence account.sequence) account.account_number)

  -- The gas that a simulation finds is kept in the builder.
  keep_gas : ℕ → Exec (Session N Body) DaemonError Unit
  keep_gas gas s = (ok tt, record s { builder = gas_limit s.builder gas })

  simulated_fee : TxBuilder Body → ℕ → ℕ → Exec (Session N Body) DaemonError (ℕ × ℕ)
  unfolding keep_gas
  simulated_fee b seq account_number = do
    used ← on_net (wallet.calculate_gas b.body seq account_number)
    gas_and_fee ← lift (wallet.get_fee_from_gas used)
    keep_gas gas_and_fee.0
    pure (gas_and_fee.1, gas_and_fee.0)

  -- The fee and the gas limit: fixed by the builder if both are set, else from a simulation.
  fee_and_gas :
      Option ℕ → Option ℕ → TxBuilder Body → ℕ → ℕ → Exec (Session N Body) DaemonError (ℕ × ℕ)
  unfolding simulated_fee
  fee_and_gas (some fee) (some gas) b seq account_number = pure (fee, gas)
  fee_and_gas (some fee) none b seq account_number = simulated_fee b seq account_number
  fee_and_gas none gas b seq account_number = simulated_fee b seq account_number

  -- `TxBuilder::build`
  unfoldable pub build : Exec (Session N Body) DaemonError Raw
  unfolding fee_and_gas
  build = do
    account ← on_net wallet.base_account
    b ← gets (λ s. ok s.builder)
    let seq = value_or b.sequence account.sequence
    tx_fee ← fee_and_gas b.fee_amount b.gas_limit b seq account.account_number
    lift (
        wallet.sign_tx (record {
          body = b.body;
          fee = tx_fee.0;
          gas = tx_fee.1;
          sequence = seq;
          account_number = account.account_number;
        }))
