-- ===== src/Interchain/Inspector/Cycle.antt =====
-- The following of one packet in packages/interchain/interchain-daemon/src/packet_inspector.rs:
-- `follow_packet_cycle`, `follow_packet_timeout`, their race, and `wait_ibc` over them.
pub mod Acknowledgement
use Prim.Native.String
use cw_orchestrator.Common.{
  ℕ, String, Bool, true, false, Option, none, some, List, [], ◌∷◌, Outcome, ok, err, panic, map_ok,
  unwrap, map_err, ◌==◌, if◌then◌else◌, eqb, first,
}
use cw_orchestrator.Common.Exec.{Exec, pure, lift, ◌>>=◌, ◌>>◌, map_error}
use cw_orchestrator.Daemon.Error.{tx_failed}
use cw_orchestrator.Daemon.TxResponse.{
  TxResultBlockEvent, CosmTxResponse, get_events, get_first_attribute_value,
}
use cw_orchestrator.Interchain.Analysis.{TxId, TxAnalysis}
use cw_orchestrator.Interchain.Channel.{IbcPort, InterchainChannel, get_ordered_ports_from, new}
use cw_orchestrator.Interchain.Following.{
  IbcPacketInfo, SimpleAnalysis, Follower, Stop, timeout, success,
}
use cw_orchestrator.Interchain.Following
use cw_orchestrator.Interchain.Inspector.{
  Inspector, InterchainDaemonError, daemon, interchain_error, get_grpc_channel, get_packet_send_tx,
  get_packet_receive_tx, get_packet_timeout_tx, get_packet_ack_receive_tx,
}
use cw_orchestrator.Interchain.Inspector.Sent.{find_ibc_packets_sent_in_tx}

module _ {N C Bytes Time Price Endpoint Client : Type 0}
    (i : Inspector N C Bytes Time Price Endpoint Client) where
  -- The error of a transaction that the chain reports as failed.
  unfoldable pub check_code :
      String → CosmTxResponse Bytes Time → Outcome (InterchainDaemonError C) (Unit {0})
  check_code chain_id tx =
      if eqb tx.code 0
      then ok tt
      else err (
          daemon (
            tx_failed tx.code
              (String.◌++◌ "Raw log on " (String.◌++◌ chain_id (String.◌++◌ " : " tx.raw_log)))))

  numbered : String → Option String → Outcome (InterchainDaemonError C) Bool
  numbered sequence none = panic
  numbered sequence (some s) = ok (s == sequence)

  keep_if :
      TxResultBlockEvent
      → Outcome (InterchainDaemonError C) Bool
      → Outcome (InterchainDaemonError C) (List TxResultBlockEvent)
      → Outcome (InterchainDaemonError C) (List TxResultBlockEvent)
  keep_if e (ok b) rest = map_ok (λ l. if b then e ∷ l else l) rest
  keep_if e (err x) rest = err x
  keep_if e panic rest = panic

  -- The filter by the sequence of the packet, which panics at an event without one.
  unfoldable pub with_sequence :
      String → List TxResultBlockEvent → Outcome (InterchainDaemonError C) (List TxResultBlockEvent)
  unfolding numbered keep_if
  with_sequence sequence [] = ok []
  with_sequence sequence (e ∷ events) =
      keep_if e (numbered sequence (get_first_attribute_value e "packet_sequence"))
        (with_sequence sequence events)

  -- What is read of the event that writes the acknowledgement.
  ack_of : Option TxResultBlockEvent → Exec N (InterchainDaemonError C) String
  ack_of none = lift panic
  ack_of (some event) = do
    recv_packet_sequence ← lift (unwrap (get_first_attribute_value event "packet_sequence"))
    recv_packet_data ← lift (unwrap (get_first_attribute_value event "packet_data"))
    lift (unwrap (get_first_attribute_value event "packet_ack"))

  -- The acknowledgement of the first event with the sequence.
  unfoldable pub acknowledgement :
      CosmTxResponse Bytes Time → ℕ → Exec N (InterchainDaemonError C) String
  unfolding ack_of
  acknowledgement tx sequence =
      lift (with_sequence (i.show sequence) (get_events i.decoding tx "write_acknowledgement"))
      >>= λ events. ack_of (first events)

  abbrev tx_on : String → CosmTxResponse Bytes Time → TxId (CosmTxResponse Bytes Time)
  tx_on chain_id tx = record { chain_id = chain_id; response = tx }

  abbrev ports_from :
      InterchainChannel C → String → Exec N (InterchainDaemonError C) (IbcPort C × IbcPort C)
  ports_from channel from = lift (map_err interchain_error (get_ordered_ports_from channel from))

  unfoldable pub follow_packet_cycle :
      String
      → InterchainChannel C
      → ℕ
      → Exec N (InterchainDaemonError C) (SimpleAnalysis (CosmTxResponse Bytes Time))
  follow_packet_cycle from channel sequence = do
    ends ← ports_from channel from
    send_tx ← get_packet_send_tx i from channel sequence
    received_tx ← get_packet_receive_tx i from channel sequence
    lift (check_code ends.1.chain_id received_tx)
    ack ← acknowledgement received_tx sequence
    ack_tx ← get_packet_ack_receive_tx i ends.0.chain_id channel sequence
    lift (check_code ends.0.chain_id ack_tx)
    pure (record {
      send_tx = some (tx_on ends.0.chain_id send_tx);
      outcome = success (tx_on ends.1.chain_id received_tx) (tx_on ends.0.chain_id ack_tx) ack;
    })

  -- The channel's identifier is unwrapped for the log.
  unfoldable pub follow_packet_timeout :
      String
      → InterchainChannel C
      → ℕ
      → Exec N (InterchainDaemonError C) (SimpleAnalysis (CosmTxResponse Bytes Time))
  follow_packet_timeout from channel sequence = do
    send_tx ← get_packet_send_tx i from channel sequence
    ends ← ports_from channel from
    timeout_tx ← get_packet_timeout_tx i from channel sequence
    lift (check_code ends.0.chain_id timeout_tx)
    src_channel ← lift (unwrap ends.0.channel)
    pure (record {
      send_tx = some (tx_on ends.0.chain_id send_tx);
      outcome = timeout (tx_on ends.0.chain_id timeout_tx);
    })

  -- `select_all`: the search that is done first gives the result, be it an error.
  race :
      {A : Type 0}
      → Exec N (InterchainDaemonError C) A
      → Exec N (InterchainDaemonError C) A
      → Exec N (InterchainDaemonError C) A
  race cycle timed n = if i.cycle_is_first n then cycle n else timed n

  port_at : String → String → String → C → IbcPort C
  port_at chain_id port channel c = record {
    chain_id = chain_id;
    connection_id = none;
    port = port;
    channel = some channel;
    chain = c;
  }

  parsed : Outcome String String → Exec N (InterchainDaemonError C) String
  parsed (ok s) = pure s
  parsed (err e) = lift panic
  parsed panic = lift panic

  unfoldable pub follow_packet :
      String
      → IbcPacketInfo
      → Exec N (InterchainDaemonError C) (SimpleAnalysis (CosmTxResponse Bytes Time))
  unfolding race port_at parsed
  follow_packet src_chain packet = do
    src ← get_grpc_channel i src_chain
    dst ← get_grpc_channel i packet.dst_chain_id
    registered ← map_error daemon (i.channel src packet.src_port packet.src_channel)
    counterparty ← lift (unwrap registered.counterparty)
    dst_port ← parsed (i.parse_port counterparty.0)
    dst_channel ← parsed (i.parse_channel counterparty.1)
    let channel =
        new (port_at src_chain packet.src_port packet.src_channel src)
          (port_at packet.dst_chain_id dst_port dst_channel dst)
    race (follow_packet_cycle src_chain channel packet.sequence)
        (follow_packet_timeout src_chain channel packet.sequence)

  find_packets :
      String → CosmTxResponse Bytes Time → Exec N (InterchainDaemonError C) (List IbcPacketInfo)
  find_packets src_chain tx =
      get_grpc_channel i src_chain >>= λ c. find_ibc_packets_sent_in_tx i c tx

  -- What `wait_ibc` follows packets with.
  unfoldable pub inspecting : Follower N (CosmTxResponse Bytes Time) (InterchainDaemonError C)
  unfolding find_packets
  inspecting = record { find_packets = find_packets; follow_packet = follow_packet }

  unfoldable pub wait_ibc :
      ℕ
      → String
      → CosmTxResponse Bytes Time
      → Exec N (Stop (InterchainDaemonError C)) (TxAnalysis (CosmTxResponse Bytes Time))
  wait_ibc = Following.wait_ibc inspecting
