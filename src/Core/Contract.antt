-- ===== src/Core/Contract.antt =====
-- packages/cw-orch-core/src/contract/contract_instance.rs and the trait `TxHandler` of
-- environment/cosmwasm_environment.rs. The world `W` holds the chain and the local state of the
-- deployment, which every clone of the chain object shares. Log lines change nothing and are left
-- out, and so are the arguments that only a log line evaluates.
pub mod Lookup
pub mod Flow
use cw_orchestrator.Common.{
  ℕ, String, Option, none, some, List, [], Outcome, ok, err, or_outcome, ok_or,
}
use cw_orchestrator.Common.Exec.{Exec, pure, lift, gets, puts, ◌>>=◌, ◌>>◌, map_error}
use cw_orchestrator.Core.Error.{CwEnvError, addr_not_in_store, code_id_not_in_store, cosmwasm_error}
use cw_orchestrator.Core.Events.{
  IndexResponse, Parsers, StdError, uploaded_code_id, instantiated_contract_address,
}
use cw_orchestrator.Core.State.{StateInterface}

-- `Contract<Chain>`; the chain is the argument of the methods.
pub record Contract : Type 0 where
  pub id : String
  pub default_code_id : Option ℕ
  pub default_address : Option String

-- `Contract::new`
unfoldable pub new : String → Contract
new id = record { id = id; default_code_id = none; default_address = none }

unfoldable pub set_default_address : Contract → String → Contract
set_default_address c address = record c { default_address = some address }

unfoldable pub set_default_code_id : Contract → ℕ → Contract
set_default_code_id c code_id = record c { default_code_id = some code_id }

-- `coins.unwrap_or(&[])`
abbrev pub coins_or_none : {C : Type 0} → Option (List C) → List C
coins_or_none none = []
coins_or_none (some coins) = coins

-- A chain environment: the transactions of `TxHandler`, the state of `ChainState`, and the response
-- type's `IndexResponse`. `E` is the environment's own error, `into` its conversion; `std_error` is
-- the conversion of an `StdError`'s text.
pub record Chain (W Source Msg Coin Salt R E : Type 0) : Type 0 where
  pub upload_tx : Source → Exec W E R
  pub execute_tx : Msg → List Coin → String → Exec W E R
  pub instantiate_tx : ℕ → Msg → Option String → Option String → List Coin → Exec W E R
  pub instantiate2_tx : ℕ → Msg → Option String → Option String → List Coin → Salt → Exec W E R
  pub migrate_tx : Msg → ℕ → String → Exec W E R
  pub into : E → CwEnvError
  pub std_error : StdError → String
  pub response : IndexResponse R
  pub parsers : Parsers
  pub state : StateInterface W

module _ {W Source Msg Coin Salt R E : Type 0} (chain : Chain W Source Msg Coin Salt R E)
    (c : Contract) where
  -- If the state has no address, the default or an error.
  unfoldable pub address : W → Outcome CwEnvError String
  address w =
      or_outcome (chain.state.get_address w c.id) (ok_or c.default_address (addr_not_in_store c.id))

  unfoldable pub set_address : String → Exec W CwEnvError Unit
  set_address a = puts (λ w. chain.state.set_address w c.id a)

  unfoldable pub remove_address : Exec W CwEnvError Unit
  remove_address = puts (λ w. chain.state.remove_address w c.id)

  unfoldable pub code_id : W → Outcome CwEnvError ℕ
  code_id w =
      or_outcome (chain.state.get_code_id w c.id)
        (ok_or c.default_code_id (code_id_not_in_store c.id))

  unfoldable pub set_code_id : ℕ → Exec W CwEnvError Unit
  set_code_id n = puts (λ w. chain.state.set_code_id w c.id n)

  unfoldable pub remove_code_id : Exec W CwEnvError Unit
  remove_code_id = puts (λ w. chain.state.remove_code_id w c.id)

  abbrev pub from_std : {A : Type 0} → Outcome StdError A → Exec W CwEnvError A
  from_std r = map_error (λ e. cosmwasm_error (chain.std_error e)) (lift r)

  unfoldable pub upload : Source → Exec W CwEnvError R
  upload source = do
    resp ← map_error chain.into (chain.upload_tx source)
    code ← from_std (uploaded_code_id chain.response chain.parsers resp)
    set_code_id code
    pure resp

  unfoldable pub execute : Msg → Option (List Coin) → Exec W CwEnvError R
  execute msg coins = do
    a ← gets address
    map_error chain.into (chain.execute_tx msg (coins_or_none coins) a)

  unfoldable pub instantiate : Msg → Option String → Option (List Coin) → Exec W CwEnvError R
  instantiate msg admin coins = do
    code ← gets code_id
    resp ←
        map_error chain.into (chain.instantiate_tx code msg (some c.id) admin (coins_or_none coins))
    a ← from_std (instantiated_contract_address chain.response chain.parsers resp)
    set_address a
    pure resp

  unfoldable pub instantiate2 :
      Msg → Option String → Option (List Coin) → Salt → Exec W CwEnvError R
  instantiate2 msg admin coins salt = do
    code ← gets code_id
    resp ←
        map_error chain.into
          (chain.instantiate2_tx code msg (some c.id) admin (coins_or_none coins) salt)
    a ← from_std (instantiated_contract_address chain.response chain.parsers resp)
    set_address a
    pure resp

  unfoldable pub migrate : Msg → ℕ → Exec W CwEnvError R
  migrate msg new_code_id = do
    a ← gets address
    map_error chain.into (chain.migrate_tx msg new_code_id a)
