-- ===== src/Core/Contract/Flow.antt =====
-- How the transactions of a contract and its local state go together: what `upload` and
-- `instantiate` register, and that a failure on the way registers nothing.
use cw_orchestrator.Common.{ℕ, String, ◌≡◌, Option, some, List, ok, err, ◌==◌, if◌then◌else◌}
use cw_orchestrator.Core.Error.{CwEnvError}
use cw_orchestrator.Core.Events.{uploaded_code_id, instantiated_contract_address}
use cw_orchestrator.Core.State.{StateLaws}
use cw_orchestrator.Core.Contract.{
  Chain, Contract, address, code_id, upload, execute, instantiate, migrate, coins_or_none,
}
use cw_orchestrator.Core.Contract.Lookup.{address-set_address, code_id-set_code_id}

module _ {W Source Msg Coin Salt R E : Type 0} (chain : Chain W Source Msg Coin Salt R E)
    {IsValid : W → Type 0} where
  -- Over a state that keeps the contract of `StateInterface`: if the chain accepts the code and its
  -- response carries a code id, in a state that stays valid, then `upload` gives the response; from
  -- then on a contract with the same id reads that code id, every other one its code id, and every
  -- contract its address, as right after the transaction.
  pub upload-registers :
      StateLaws chain.state IsValid
      → (c d : Contract) (source : Source) (w : W) (resp : R) (n : ℕ)
      → (chain.upload_tx source w).0 ≡ ok resp
      → uploaded_code_id chain.response chain.parsers resp ≡ ok n
      → IsValid (chain.upload_tx source w).1
      → ((upload chain c source w).0 ≡ ok resp)
        × (code_id chain d (upload chain c source w).1
            ≡ (if c.id == d.id then ok n else code_id chain d (chain.upload_tx source w).1))
        × (address chain d (upload chain c source w).1
            ≡ address chain d (chain.upload_tx source w).1)
  unfolding upload
  upload-registers laws c d source w resp n sent parsed v =
      let (stored, code_ids, addresses) =
        code_id-set_code_id chain laws c d n (chain.upload_tx source w).1 v in
      (
        rw (sent, parsed, stored),
        rw (sent, parsed, stored) code_ids,
        rw (sent, parsed, stored) addresses,
      )

  -- Over a state that keeps the contract of `StateInterface`: if the contract has a code id, the
  -- chain instantiates it under the contract's id as label, and the response carries an address, in
  -- a state that stays valid, then `instantiate` gives the response; from then on a contract with
  -- the same id reads that address, and every other one its address as right after the transaction.
  pub instantiate-registers :
      StateLaws chain.state IsValid
      → (c d : Contract) (msg : Msg) (admin : Option String) (coins : Option (List Coin)) (w : W)
        (code : ℕ) (resp : R) (a : String) (w' : W)
      → code_id chain c w ≡ ok code
      → chain.instantiate_tx code msg (some c.id) admin (coins_or_none coins) w ≡ (ok resp, w')
      → instantiated_contract_address chain.response chain.parsers resp ≡ ok a
      → IsValid w'
      → ((instantiate chain c msg admin coins w).0 ≡ ok resp)
        × (address chain d (instantiate chain c msg admin coins w).1
            ≡ (if c.id == d.id then ok a else address chain d w'))
  unfolding instantiate
  instantiate-registers laws c d msg admin coins w code resp a w' known sent parsed v =
      let (stored, addresses, _) = address-set_address chain laws c d a w' v in
      (rw (known, sent, parsed, stored), rw (known, sent, parsed, stored) addresses)

module _ {W Source Msg Coin Salt R E : Type 0} (chain : Chain W Source Msg Coin Salt R E)
    (c : Contract) where
  -- An upload that the chain refuses leaves the state as the refused transaction left it, and gives
  -- the chain's error, converted.
  pub upload_refused :
      (source : Source) (w : W) (e : E)
      → (chain.upload_tx source w).0 ≡ err e
      → upload chain c source w ≡ (err (chain.into e), (chain.upload_tx source w).1)
  unfolding upload
  upload_refused source w e refused = rw refused

  -- A contract with no code id, in the state or by default, is not instantiated: no transaction is
  -- sent and the state is as before.
  pub instantiate_unknown :
      (msg : Msg) (admin : Option String) (coins : Option (List Coin)) (w : W) (e : CwEnvError)
      → code_id chain c w ≡ err e
      → instantiate chain c msg admin coins w ≡ (err e, w)
  unfolding instantiate
  instantiate_unknown msg admin coins w e unknown = rw unknown

  -- A contract with no address is neither executed nor migrated: no transaction is sent and the state
  -- is as before.
  pub execute-migrate_unknown :
      (msg : Msg) (coins : Option (List Coin)) (n : ℕ) (w : W) (e : CwEnvError)
      → address chain c w ≡ err e
      → (execute chain c msg coins w ≡ (err e, w)) × (migrate chain c msg n w ≡ (err e, w))
  unfolding execute migrate
  execute-migrate_unknown msg coins n w e unknown = (rw unknown, rw unknown)
