-- ===== src/Interchain/Channel.antt =====
-- packages/interchain/interchain-core/src/channel.rs
-- `H` is the handler of a chain. `get_mut_ordered_ports_from` is a change through the two references
-- that it gives.
use cw_orchestrator.Common.{
  String, ◌≡◌, arith, Option, Outcome, ok, err, ◌>>=◌, ◌==◌, if◌then◌else◌, map_ok,
}
use cw_orchestrator.Interchain.Error.{InterchainError, chain_not_found}

pub record IbcPort (H : Type 0) : Type 0 where
  pub chain_id : String
  pub connection_id : Option String
  pub port : String
  pub channel : Option String
  pub chain : H

pub record InterchainChannel (H : Type 0) : Type 0 where
  pub port_a : IbcPort H
  pub port_b : IbcPort H

module _ {H : Type 0} where
  unfoldable pub new : IbcPort H → IbcPort H → InterchainChannel H
  new port_a port_b = record { port_a = port_a; port_b = port_b }

  unfoldable pub get_chain : InterchainChannel H → String → Outcome InterchainError (IbcPort H)
  get_chain c chain_id =
      if chain_id == c.port_a.chain_id
      then ok c.port_a
      else if chain_id == c.port_b.chain_id
      then ok c.port_b
      else err (chain_not_found chain_id)

  unfoldable pub get_ordered_ports_from :
      InterchainChannel H → String → Outcome InterchainError (IbcPort H × IbcPort H)
  get_ordered_ports_from c from =
      if from == c.port_a.chain_id
      then ok (c.port_a, c.port_b)
      else if from == c.port_b.chain_id
      then ok (c.port_b, c.port_a)
      else err (chain_not_found from)

  unfoldable pub get_mut_ordered_ports_from :
      InterchainChannel H
      → String
      → (IbcPort H × IbcPort H → IbcPort H × IbcPort H)
      → Outcome InterchainError (InterchainChannel H)
  get_mut_ordered_ports_from c from change =
      if from == c.port_a.chain_id
      then (let ports = change (c.port_a, c.port_b) in
          ok (record { port_a = ports.0; port_b = ports.1 }))
      else if from == c.port_b.chain_id
      then (let ports = change (c.port_b, c.port_a) in
          ok (record { port_a = ports.1; port_b = ports.0 }))
      else err (chain_not_found from)

  -- After a change through the mutable ports that keeps the chains' identifiers, the ports in the same
  -- order are the changed ones, and an identifier that is not registered fails before and after.
  pub ordered-mut_ordered :
      (c : InterchainChannel H) (from : String)
      (change : IbcPort H × IbcPort H → IbcPort H × IbcPort H)
      → ((p q : IbcPort H)
          → ((change (p, q)).0.chain_id ≡ p.chain_id) × ((change (p, q)).1.chain_id ≡ q.chain_id))
      → (get_mut_ordered_ports_from c from change >>= λ c'. get_ordered_ports_from c' from)
        ≡ map_ok change (get_ordered_ports_from c from)
  unfolding get_mut_ordered_ports_from get_ordered_ports_from
  ordered-mut_ordered c from change keeps =
      ground (arith, keeps c.port_a c.port_b, keeps c.port_b c.port_a)

  -- The first of the ordered ports is the port of the chain.
  pub get_chain-ordered :
      (c : InterchainChannel H) (from : String)
      → get_chain c from ≡ map_ok (λ ports. ports.0) (get_ordered_ports_from c from)
  unfolding get_chain get_ordered_ports_from
  get_chain-ordered c from = ground arith
