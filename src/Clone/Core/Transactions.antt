-- ===== src/Clone/Core/Transactions.antt =====
-- What an instantiation in packages/clone-testing/src/core.rs registers, and an upload of a wasm file.
use cw_orchestrator.Common.{ℕ, String, ◌≡◌, refl, Option, List, ok, ◌==◌, if◌then◌else◌}
use cw_orchestrator.Core.Events.{
  app_response, Parsers, instantiated_contract_address, event_attr_value, first_value, search_event,
}
use cw_orchestrator.Core.State.{StateInterface, StateLaws}
use cw_orchestrator.Core.Contract.{Contract, address, code_id, coins_or_none}
use cw_orchestrator.Core.Contract as Contracts
use cw_orchestrator.Core.Contract.Flow.{instantiate-registers}
use cw_orchestrator.Clone.Core.{CloneApp, clone_chain, created_response, instantiate}
use cw_orchestrator.Mock.Core.{MockWorld}
use cw_orchestrator.Mock.Core.Uploads.{shared_state-StateLaws}

created_address :
    (parsers : Parsers) (s : String)
    → instantiated_contract_address app_response parsers (created_response s) ≡ ok s
unfolding instantiated_contract_address event_attr_value first_value search_event
created_address parsers s = refl

module _ {App S Source Msg Coin Salt : Type 0} (t : CloneApp App Source Msg Coin Salt)
    (i : StateInterface S) (parsers : Parsers) (sender : String) where
  -- Over a state that keeps the contract of `StateInterface`, at a valid state: if the contract has a
  -- code id and the application instantiates it at an address, under the id of the contract as label,
  -- then `instantiate` of the contract on a clone succeeds; from then on a contract with the same id
  -- has that address, and every other one the address that it had.
  pub instantiate-clone_chain :
      {IsValid : S → Type 0}
      → StateLaws i IsValid
      → (c d : Contract) (msg : Msg) (admin : Option String) (coins : Option (List Coin))
        (w : MockWorld App S) (code : ℕ) (a : String) (app : App)
      → code_id (clone_chain t i parsers sender) c w ≡ ok code
      → t.instantiate_contract code sender msg (coins_or_none coins) c.id admin w.app ≡ (ok a, app)
      → IsValid w.state
      → ((Contracts.instantiate (clone_chain t i parsers sender) c msg admin coins w).0
          ≡ ok (created_response a))
        × (address
              (clone_chain t i parsers sender)
              d
              (Contracts.instantiate (clone_chain t i parsers sender) c msg admin coins w).1
            ≡ (if c.id == d.id then ok a else address (clone_chain t i parsers sender) d w))
  unfolding instantiate address
  instantiate-clone_chain {IsValid} laws c d msg admin coins w code a app known made v =
      instantiate-registers (clone_chain t i parsers sender) (shared_state-StateLaws i IsValid laws)
        c d msg admin coins w code (created_response a) a (record { app = app; state = w.state })
        known (rw made refl) (created_address parsers a) v
