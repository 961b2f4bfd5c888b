-- ===== src/Interchain/Following.antt =====
-- How the packets of a transaction are followed, and those of the transactions that relay them:
-- `InterchainEnv::await_packets` in packages/interchain/interchain-mock/src/interchain.rs and
-- `PacketInspector::wait_ibc` in packages/interchain/interchain-daemon/src/packet_inspector.rs.
-- Both are over the search for the packets of a transaction and the following of one packet. The
-- recursion is on fuel, since the chains may send packets without end. Futures that are joined run one
-- after the other here.
pub mod Complete
pub mod Ending
use cw_orchestrator.Common.{ℕ, zero, suc, String, Option, some, List, [], ◌∷◌}
use cw_orchestrator.Common.Exec.{Exec, pure, throw, ◌>>=◌, map_error}
use cw_orchestrator.Interchain.Analysis.{
  TxId, TxAnalysis, analysis, Packets, no_packets, timed_out, succeeded,
}

-- `IbcPacketInfo`
pub record IbcPacketInfo : Type 0 where
  pub src_port : String
  pub src_channel : String
  pub sequence : ℕ
  pub dst_chain_id : String

-- `IbcPacketOutcome` of one packet: the timeout, or the receiving, the acknowledging and what was
-- acknowledged.
pub data PacketOutcome (A : Type 0) : Type 0 where
  timeout : A → PacketOutcome A
  success : A → A → String → PacketOutcome A

-- `SimpleIbcPacketAnalysis`
pub record SimpleAnalysis (R : Type 0) : Type 0 where
  pub send_tx : Option (TxId R)
  pub outcome : PacketOutcome (TxId R)

pub record Follower (N R E : Type 0) : Type 0 where
  pub find_packets : String → R → Exec N E (List IbcPacketInfo)
  pub follow_packet : String → IbcPacketInfo → Exec N E (SimpleAnalysis R)

-- Why no analysis is given.
pub data Stop (E : Type 0) : Type 0 where
  out_of_fuel : Stop E
  failed : E → Stop E

-- `FullIbcPacketAnalysis`, put before the other packets.
abbrev pub attach : {R : Type 0} → TxId R → PacketOutcome (TxAnalysis R) → Packets R → Packets R
attach send_tx (timeout tx) rest = timed_out (some send_tx) tx rest
attach send_tx (success received acknowledged ack) rest =
    succeeded (some send_tx) received acknowledged ack rest

module _ {N E R : Type 0} where
  analyze_outcome :
      (String → R → Exec N (Stop E) (TxAnalysis R))
      → PacketOutcome (TxId R)
      → Exec N (Stop E) (PacketOutcome (TxAnalysis R))
  analyze_outcome again (timeout tx) = do
    analyzed ← again tx.chain_id tx.response
    pure (timeout analyzed)
  analyze_outcome again (success receive_tx ack_tx ack) = do
    received ← again receive_tx.chain_id receive_tx.response
    acknowledged ← again ack_tx.chain_id ack_tx.response
    pure (success received acknowledged ack)

module _ {N R E : Type 0} (f : Follower N R E) where
  follow : String → IbcPacketInfo → Exec N (Stop E) (PacketOutcome (TxId R))
  follow chain_id packet =
      map_error failed (f.follow_packet chain_id packet) >>= λ result. pure result.outcome

  -- The mock environment follows a packet and then its transactions, before the next packet.
  analyze_packets :
      (String → R → Exec N (Stop E) (TxAnalysis R))
      → TxId R
      → List IbcPacketInfo
      → Exec N (Stop E) (Packets R)
  unfolding follow analyze_outcome
  analyze_packets again send_tx [] = pure no_packets
  analyze_packets again send_tx (packet ∷ packets) = do
    outcome ← follow send_tx.chain_id packet
    analyzed ← analyze_outcome again outcome
    rest ← analyze_packets again send_tx packets
    pure (attach send_tx analyzed rest)

  unfoldable pub await_packets : ℕ → String → R → Exec N (Stop E) (TxAnalysis R)
  unfolding analyze_packets
  await_packets zero chain_id tx = throw out_of_fuel
  await_packets (suc fuel) chain_id tx = do
    packets ← map_error failed (f.find_packets chain_id tx)
    analyzed ←
        analyze_packets (await_packets fuel) (record { chain_id = chain_id; response = tx }) packets
    pure (analysis (record { chain_id = chain_id; response = tx }) analyzed)

  -- The daemon environment follows all packets first.
  follow_all : String → List IbcPacketInfo → Exec N (Stop E) (List (PacketOutcome (TxId R)))
  unfolding follow
  follow_all chain_id [] = pure []
  follow_all chain_id (packet ∷ packets) = do
    outcome ← follow chain_id packet
    outcomes ← follow_all chain_id packets
    pure (outcome ∷ outcomes)

  analyze_all :
      (String → R → Exec N (Stop E) (TxAnalysis R))
      → TxId R
      → List (PacketOutcome (TxId R))
      → Exec N (Stop E) (Packets R)
  unfolding analyze_outcome
  analyze_all again send_tx [] = pure no_packets
  analyze_all again send_tx (outcome ∷ outcomes) = do
    analyzed ← analyze_outcome again outcome
    rest ← analyze_all again send_tx outcomes
    pure (attach send_tx analyzed rest)

  unfoldable pub wait_ibc : ℕ → String → R → Exec N (Stop E) (TxAnalysis R)
  unfolding follow_all analyze_all
  wait_ibc zero chain_id tx = throw out_of_fuel
  wait_ibc (suc fuel) chain_id tx = do
    packets ← map_error failed (f.find_packets chain_id tx)
    outcomes ← follow_all chain_id packets
    analyzed ← analyze_all (wait_ibc fuel) (record { chain_id = chain_id; response = tx }) outcomes
    pure (analysis (record { chain_id = chain_id; response = tx }) analyzed)
