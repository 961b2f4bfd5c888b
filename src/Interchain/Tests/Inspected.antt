-- ===== src/Interchain/Tests/Inspected.antt =====
-- An inspector at a node that finds the same transaction for every search: it sends a packet and
-- writes its acknowledgement.
use cw_orchestrator.Common.{String, ◌≡◌, refl, true, none, some, [], ◌∷◌, ok, ◌==◌}
use cw_orchestrator.Daemon.TxResponse.{
  CosmTxResponse, get_events, get_events_from_logs, get_attributes, get_first_attribute_value,
}
use cw_orchestrator.Daemon.Node.{find_some_tx_by_events, find_tx_by_events_with_retries}
use cw_orchestrator.Interchain.Channel.{IbcPort, InterchainChannel, get_ordered_ports_from}
use cw_orchestrator.Interchain.Following.{IbcPacketInfo, SimpleAnalysis, success}
use cw_orchestrator.Interchain.Inspector.{
  Inspector, get_packet_send_tx, get_packet_receive_tx, get_packet_ack_receive_tx,
  get_tx_by_events_and_assert_one,
}
use cw_orchestrator.Interchain.Inspector.Sent.{
  find_ibc_packets_sent_in_tx, attribute_values, chain_ids_of, packets_of,
}
use cw_orchestrator.Interchain.Inspector.Sent.Aligned.{ArePackets, find_ibc_packets-ArePackets}
use cw_orchestrator.Interchain.Inspector.Cycle.{
  follow_packet_cycle, check_code, with_sequence, acknowledgement,
}
use cw_orchestrator.Interchain.Inspector.Cycle.Acknowledgement.{
  IsRelayed, follow_packet_cycle-IsRelayed,
}

abbrev relaying : CosmTxResponse String (Unit {0})
relaying = record {
  height = 9;
  txhash = "AB";
  codespace = "";
  code = 0;
  payload = "";
  raw_log = "";
  logs = [];
  info = "";
  gas_wanted = 5;
  gas_used = 4;
  timestamp = tt;
  events =
      record {
        type_ = "send_packet";
        attributes =
            ("packet_connection", "connection-0")
            ∷ ("packet_src_port", "transfer")
            ∷ ("packet_src_channel", "channel-0")
            ∷ ("packet_sequence", "1")
            ∷ ("packet_data", "{}")
            ∷ [];
      }
      ∷ record {
        type_ = "write_acknowledgement";
        attributes = ("packet_sequence", "1") ∷ ("packet_data", "{}") ∷ ("packet_ack", "done") ∷ [];
      }
      ∷ [];
}

abbrev inspector :
    Inspector (Unit {0}) (Unit {0}) String (Unit {0}) (Unit {0}) (Unit {0}) (Unit {0})
inspector = record {
  registered_chains = λ chain_id. some tt;
  transport = record {
    builder = λ address. none;
    tls_config = λ e. ok tt;
    client = λ e n. (ok tt, n);
    get_node_info = λ c n. (ok none, n);
    connect = λ e n. (ok tt, n);
  };
  supported_networks = [];
  max_tx_query_retries = 1;
  channel = λ c port channel n.
      (ok (record { is_open = true; counterparty = some ("transfer", "channel-7") }), n);
  connection_client_chain_id = λ c connection n. (ok "osmosis-1", n);
  get_txs = λ c events n. (some (relaying ∷ []), n);
  decoding = record { parse_attribute_bytes = λ b. b; is_text = λ b s. b == s };
  parse_port = λ s. ok s;
  parse_channel = λ s. ok s;
  parse_sequence = λ s. ok 1;
  cycle_is_first = λ n. true;
  show = λ n. "1";
  debug = λ p q. "";
  debug_events = λ events. "";
}

abbrev the_packet : IbcPacketInfo
the_packet = record {
  src_port = "transfer";
  src_channel = "channel-0";
  sequence = 1;
  dst_chain_id = "osmosis-1";
}

was_sent : (find_ibc_packets_sent_in_tx inspector tt relaying tt).0 ≡ ok (the_packet ∷ [])
unfolding find_ibc_packets_sent_in_tx attribute_values chain_ids_of packets_of get_events
    get_first_attribute_value get_events_from_logs get_attributes
was_sent = refl

find_ibc_packets-ArePackets_example :
    ArePackets inspector (get_events inspector.decoding relaying "send_packet") (the_packet ∷ [])
find_ibc_packets-ArePackets_example =
    find_ibc_packets-ArePackets inspector tt relaying tt (the_packet ∷ []) was_sent

abbrev end_on : String → String → IbcPort (Unit {0})
end_on chain_id channel = record {
  chain_id = chain_id;
  connection_id = none;
  port = "transfer";
  channel = some channel;
  chain = tt;
}

abbrev channel_between : InterchainChannel (Unit {0})
channel_between = record {
  port_a = end_on "juno-1" "channel-0";
  port_b = end_on "osmosis-1" "channel-7";
}

abbrev cycle : SimpleAnalysis (CosmTxResponse String (Unit {0}))
cycle = record {
  send_tx = some (record { chain_id = "juno-1"; response = relaying });
  outcome =
      success (record { chain_id = "osmosis-1"; response = relaying })
        (record { chain_id = "juno-1"; response = relaying }) "done";
}

followed : (follow_packet_cycle inspector "juno-1" channel_between 1 tt).0 ≡ ok cycle
unfolding follow_packet_cycle get_ordered_ports_from get_packet_send_tx
    get_tx_by_events_and_assert_one find_some_tx_by_events find_tx_by_events_with_retries
    get_packet_receive_tx check_code acknowledgement with_sequence get_events get_events_from_logs
    get_first_attribute_value get_attributes get_packet_ack_receive_tx
followed = refl

follow_packet_cycle-IsRelayed_example : IsRelayed inspector "juno-1" channel_between 1 cycle.outcome
follow_packet_cycle-IsRelayed_example =
    follow_packet_cycle-IsRelayed inspector "juno-1" channel_between 1 tt cycle followed
