-- ===== src/Interchain/Inspector/Sent.antt =====
-- `find_ibc_packets_sent_in_tx` in
-- packages/interchain/interchain-daemon/src/packet_inspector.rs
pub mod Aligned
use cw_orchestrator.Common.{
  ℕ, String, ◌≡◌, refl, sym, Option, none, some, List, [], ◌∷◌, Outcome, ok, err, panic, unwrap,
  map_err, traverse, first, ok_injective, ap, >>=-ok, map_err-ok, unwrap-ok, ◌∙◌,
}
use cw_orchestrator.Common.Exec.{Exec, pure, lift, ◌>>=◌, ◌>>◌, map_error, >>=-eq-ok}
use cw_orchestrator.Daemon.TxResponse.{
  TxResultBlockEvent, CosmTxResponse, get_events, get_first_attribute_value,
}
use cw_orchestrator.Interchain.Following.{IbcPacketInfo}
use cw_orchestrator.Interchain.Inspector.{
  Inspector, InterchainDaemonError, ChannelEnd, daemon, validation_error, ics_channel,
}

abbrev pub tail : {A : Type 0} → List A → List A
tail [] = []
tail (x ∷ xs) = xs

module _ {N C Bytes Time Price Endpoint Client : Type 0}
    (i : Inspector N C Bytes Time Price Endpoint Client) where
  -- `get_events`: the attribute's first value of every event.
  unfoldable pub attribute_values :
      String → List TxResultBlockEvent → Outcome (InterchainDaemonError C) (List String)
  attribute_values attr_name = traverse (λ e. unwrap (get_first_attribute_value e attr_name))

  unfoldable pub chain_ids_of : C → List String → Exec N (InterchainDaemonError C) (List String)
  chain_ids_of c [] = pure []
  chain_ids_of c (connection ∷ connections) = do
    chain_id ← map_error daemon (i.connection_client_chain_id c connection)
    rest ← chain_ids_of c connections
    pure (chain_id ∷ rest)

  -- The packet of one round: the identifiers at its index, parsed.
  packet_at :
      String
      → Option String
      → Option String
      → Option String
      → Exec N (InterchainDaemonError C) IbcPacketInfo
  packet_at port_text channel_text sequence_text chain_text = do
    src_port ← lift (map_err validation_error (i.parse_port port_text))
    channel ← lift (unwrap channel_text)
    src_channel ← lift (map_err validation_error (i.parse_channel channel))
    number ← lift (unwrap sequence_text)
    sequence ← lift (map_err ics_channel (i.parse_sequence number))
    dst_chain_id ← lift (unwrap chain_text)
    pure (record {
      src_port = src_port;
      src_channel = src_channel;
      sequence = sequence;
      dst_chain_id = dst_chain_id;
    })

  -- The query of the other end, for the log; without one the source panics.
  counterparty_of : C → String → Option String → Exec N (InterchainDaemonError C) (String × String)
  counterparty_of c src_port src_channel = do
    channel ← lift (unwrap src_channel)
    end ← map_error daemon (i.channel c src_port channel)
    lift (unwrap end.counterparty)

  -- The loop over the ports; the other lists are read at the same index.
  unfoldable pub packets_of :
      C
      → List String
      → List String
      → List String
      → List String
      → Exec N (InterchainDaemonError C) (List IbcPacketInfo)
  unfolding packet_at counterparty_of
  packets_of c [] channels sequences chain_ids = pure []
  packets_of c (port ∷ ports) channels sequences chain_ids = do
    packet ← packet_at port (first channels) (first sequences) (first chain_ids)
    counterparty ← counterparty_of c port (first channels)
    packets ← packets_of c ports (tail channels) (tail sequences) (tail chain_ids)
    pure (packet ∷ packets)

  -- The attributes are read in the order of the source; the data of the packets only goes to the log.
  in_events : C → List TxResultBlockEvent → Exec N (InterchainDaemonError C) (List IbcPacketInfo)
  in_events c [] = pure []
  in_events c (event ∷ events) = do
    connections ← lift (attribute_values "packet_connection" (event ∷ events))
    src_ports ← lift (attribute_values "packet_src_port" (event ∷ events))
    src_channels ← lift (attribute_values "packet_src_channel" (event ∷ events))
    sequences ← lift (attribute_values "packet_sequence" (event ∷ events))
    packet_datas ← lift (attribute_values "packet_data" (event ∷ events))
    chain_ids ← chain_ids_of c connections
    packets_of c src_ports src_channels sequences chain_ids

  unfoldable pub find_ibc_packets_sent_in_tx :
      C → CosmTxResponse Bytes Time → Exec N (InterchainDaemonError C) (List IbcPacketInfo)
  unfolding in_events
  find_ibc_packets_sent_in_tx c tx = in_events c (get_events i.decoding tx "send_packet")
