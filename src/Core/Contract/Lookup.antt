-- ===== src/Core/Contract/Lookup.antt =====
-- What `address` and `code_id` of a contract read after its writers, over any state that keeps the
-- contract of `StateInterface`.
use cw_orchestrator.Common.{ℕ, String, ap, ◌≡◌, ok, ok_or, arith, eq_refl, ◌==◌, if◌then◌else◌}
use cw_orchestrator.Common.Exec.{written}
use cw_orchestrator.Core.Error.{addr_not_in_store}
use cw_orchestrator.Core.State.{StateLaws, RemovalLaws}
use cw_orchestrator.Core.Contract.{
  Chain, Contract, address, set_address, remove_address, code_id, set_code_id,
}

module _ {W Source Msg Coin Salt R E : Type 0} (chain : Chain W Source Msg Coin Salt R E) where
  pub set_address_done :
      (c : Contract) (a : String) (w w' : W)
      → chain.state.set_address w c.id a ≡ ok w'
      → set_address chain c a w ≡ (ok tt, w')
  unfolding set_address
  set_address_done c a w w' e = ap (λ r. written r w) e

  pub set_code_id_done :
      (c : Contract) (n : ℕ) (w w' : W)
      → chain.state.set_code_id w c.id n ≡ ok w'
      → set_code_id chain c n w ≡ (ok tt, w')
  unfolding set_code_id
  set_code_id_done c n w w' e = ap (λ r. written r w) e

  remove_address_done :
      (c : Contract) (w w' : W)
      → chain.state.remove_address w c.id ≡ ok w'
      → remove_address chain c w ≡ (ok tt, w')
  unfolding remove_address
  remove_address_done c w w' e = ap (λ r. written r w) e

module _ {W Source Msg Coin Salt R E : Type 0} (chain : Chain W Source Msg Coin Salt R E)
    {IsValid : W → Type 0} where
  -- Over a state that keeps the contract of `StateInterface`, in a valid state: after `set_address`
  -- of a contract, which succeeds, a contract reads the new address if it has the same id, and its
  -- address as before if not; every contract reads its code id as before.
  pub address-set_address :
      StateLaws chain.state IsValid
      → (c d : Contract) (a : String) (w : W) → IsValid w
      → ((set_address chain c a w).0 ≡ ok tt)
        × (address chain d (set_address chain c a w).1
            ≡ (if c.id == d.id then ok a else address chain d w))
        × (code_id chain d (set_address chain c a w).1 ≡ code_id chain d w)
  unfolding address code_id
  address-set_address laws c d a w v =
      let wrote = laws.address_set w c.id a v in
      let step = set_address_done chain c a w wrote.next wrote.done in
      (rw step, rw (step, wrote.addresses d.id) (ground arith), rw (step, wrote.code_ids d.id))

  -- After `set_code_id` of a contract, which succeeds, a contract reads the new code id if it has the
  -- same id, and its code id as before if not; every contract reads its address as before.
  pub code_id-set_code_id :
      StateLaws chain.state IsValid
      → (c d : Contract) (n : ℕ) (w : W) → IsValid w
      → ((set_code_id chain c n w).0 ≡ ok tt)
        × (code_id chain d (set_code_id chain c n w).1
            ≡ (if c.id == d.id then ok n else code_id chain d w))
        × (address chain d (set_code_id chain c n w).1 ≡ address chain d w)
  unfolding address code_id
  code_id-set_code_id laws c d n w v =
      let wrote = laws.code_id_set w c.id n v in
      let step = set_code_id_done chain c n w wrote.next wrote.done in
      (rw step, rw (step, wrote.code_ids d.id) (ground arith), rw (step, wrote.addresses d.id))

  -- Over a state that keeps the contract of removal, in a valid state: removing the address of a
  -- contract succeeds, and the contract then reads its default address, or is reported missing
  -- where it has none.
  pub address-remove_address :
      RemovalLaws chain.state IsValid
      → (c : Contract) (w : W) → IsValid w
      → ((remove_address chain c w).0 ≡ ok tt)
        × (address chain c (remove_address chain c w).1
            ≡ ok_or c.default_address (addr_not_in_store c.id))
  unfolding address
  address-remove_address laws c w v =
      let wrote = laws.address_removed w c.id v in
      let step = remove_address_done chain c w wrote.next wrote.done in
      (rw step, rw (step, wrote.addresses c.id, eq_refl c.id))
