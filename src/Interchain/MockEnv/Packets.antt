-- ===== src/Interchain/MockEnv/Packets.antt =====
-- The packets of packages/interchain/interchain-mock/src/interchain.rs: how they are found in a
-- transaction, relayed and followed.
use cw_orchestrator.Common.{
  ℕ, String, none, List, [], ◌∷◌, unwrap, map_err, ◌==◌, keep, flat_map, first,
}
use cw_orchestrator.Common.Exec.{Exec, pure, lift, ◌>>=◌}
use cw_orchestrator.Core.Events.{Event, AppResponse, values}
use cw_orchestrator.Interchain.Analysis.{TxId, TxAnalysis}
use cw_orchestrator.Interchain.Following.{
  IbcPacketInfo, SimpleAnalysis, PacketOutcome, Follower, Stop, timeout, success,
}
use cw_orchestrator.Interchain.Following
use cw_orchestrator.Interchain.MockEnv.{
  InterchainMockError, validation_error, ics_channel, MockInterchainEnv, MultiTest,
  RelayPacketResult, RelayingResult, timeout_relayed, acknowledgement, get_chain,
}

-- `get_events` and `get_all_events_values`
unfoldable pub get_events : AppResponse → String → List Event
get_events tx event = keep (λ e. e.ty == event) tx.events

unfoldable pub get_all_events_values : List Event → String → List String
get_all_events_values events attribute = flat_map (λ e. values attribute e.attributes) events

abbrev tail : {X : Type 0} → List X → List X
tail [] = []
tail (x ∷ xs) = xs

module _ {W A Order : Type 0} (t : MultiTest W A Order) (env : MockInterchainEnv A) where
  -- The chains at the other ends of the connections.
  chain_ids_of : A → List String → Exec W InterchainMockError (List String)
  chain_ids_of chain [] = pure []
  chain_ids_of chain (c ∷ connections) = do
    chain_id ← t.connected_chain chain c
    rest ← chain_ids_of chain connections
    pure (chain_id ∷ rest)

  packets_of :
      List String
      → List String
      → List String
      → List String
      → Exec W InterchainMockError (List IbcPacketInfo)
  packets_of [] channels sequences chain_ids = pure []
  packets_of (port ∷ ports) channels sequences chain_ids = do
    src_port ← lift (map_err validation_error (t.parse_port port))
    channel ← lift (unwrap (first channels))
    src_channel ← lift (map_err validation_error (t.parse_channel channel))
    number ← lift (unwrap (first sequences))
    sequence ← lift (map_err ics_channel (t.parse_sequence number))
    dst_chain_id ← lift (unwrap (first chain_ids))
    packets ← packets_of ports (tail channels) (tail sequences) (tail chain_ids)
    pure (
        record {
          src_port = src_port;
          src_channel = src_channel;
          sequence = sequence;
          dst_chain_id = dst_chain_id;
        }
        ∷ packets)

  in_events : A → List Event → Exec W InterchainMockError (List IbcPacketInfo)
  unfolding chain_ids_of packets_of
  in_events chain [] = pure []
  in_events chain (e ∷ es) = do
    chain_ids ← chain_ids_of chain (get_all_events_values (e ∷ es) "packet_connection")
    packets_of (get_all_events_values (e ∷ es) "packet_src_port")
        (get_all_events_values (e ∷ es) "packet_src_channel")
        (get_all_events_values (e ∷ es) "packet_sequence") chain_ids

  unfoldable pub find_ibc_packets_sent_in_tx :
      A → AppResponse → Exec W InterchainMockError (List IbcPacketInfo)
  unfolding in_events
  find_ibc_packets_sent_in_tx chain tx = in_events chain (get_events tx "send_packet")

  abbrev tx_on : String → AppResponse → TxId AppResponse
  tx_on chain_id tx = record { chain_id = chain_id; response = tx }

  outcome_of :
      String → String → RelayPacketResult → RelayingResult → PacketOutcome (TxId AppResponse)
  outcome_of src_chain dst_chain r (timeout_relayed tx) = timeout (tx_on src_chain tx)
  outcome_of src_chain dst_chain r (acknowledgement tx ack) =
      success (tx_on dst_chain r.receive_tx) (tx_on src_chain tx) ack

  unfoldable pub await_single_packet :
      String → IbcPacketInfo → Exec W InterchainMockError (SimpleAnalysis AppResponse)
  unfolding outcome_of
  await_single_packet src_chain packet = do
    src ← lift (get_chain env src_chain)
    dst ← lift (get_chain env packet.dst_chain_id)
    relayed ← t.relay_packet src dst packet.src_port packet.src_channel packet.sequence
    pure (record {
      send_tx = none;
      outcome = outcome_of src_chain packet.dst_chain_id relayed relayed.result;
    })

  sent_by : String → AppResponse → Exec W InterchainMockError (List IbcPacketInfo)
  sent_by chain_id tx =
      lift (get_chain env chain_id) >>= λ chain. find_ibc_packets_sent_in_tx chain tx

  -- What `await_packets` follows packets with.
  unfoldable pub relaying : Follower W AppResponse InterchainMockError
  unfolding sent_by
  relaying = record { find_packets = sent_by; follow_packet = await_single_packet }

  unfoldable pub await_packets :
      ℕ → String → AppResponse → Exec W (Stop InterchainMockError) (TxAnalysis AppResponse)
  await_packets = Following.await_packets relaying
