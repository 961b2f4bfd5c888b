-- ===== src/Interchain/Inspector.antt =====
-- `PacketInspector` in packages/interchain/interchain-daemon/src/packet_inspector.rs, the errors of
-- error.rs beside it, and `parse_network` in packages/cw-orch-networks/src/networks/mod.rs.
-- `C` is a channel to a node and `R` the response of a node. Log lines are left out.
pub mod Sent
pub mod Cycle
use Prim.Native.String
use cw_orchestrator.Common.{
  ℕ, String, Bool, true, false, Option, none, some, List, [], ◌∷◌, Outcome, ok, err, panic, unwrap,
  map_err, ok_or, ◌==◌, if◌then◌else◌, eqb,
}
use cw_orchestrator.Common.Exec.{Exec, pure, lift, throw, ◌>>=◌, ◌>>◌, map_error}
use cw_orchestrator.Core.ChainInfo.{ChainInfo}
use cw_orchestrator.Core.Events.{StdError}
use cw_orchestrator.Daemon.Error.{DaemonError, ibc_error, tx_failed}
use cw_orchestrator.Daemon.GrpcChannel.{Transport}
use cw_orchestrator.Daemon.GrpcChannel
use cw_orchestrator.Daemon.Node.{Request, find_some_tx_by_events}
use cw_orchestrator.Daemon.TxResponse.{CosmTxResponse, Decoding}
use cw_orchestrator.Interchain.Analysis.{TxId}
use cw_orchestrator.Interchain.Channel.{IbcPort, InterchainChannel, get_ordered_ports_from, new}
use cw_orchestrator.Interchain.Error.{InterchainError}
use cw_orchestrator.Interchain.Following.{IbcPacketInfo, SimpleAnalysis, timeout, success}

-- The payload of an error that a third-party type carries is its message.
pub data InterchainDaemonError (C : Type 0) : Type 0 where
  interchain_error : InterchainError → InterchainDaemonError C
  std_error : StdError → InterchainDaemonError C
  io_error starship validation_error ics_channel : String → InterchainDaemonError C
  manual_interruption hermes_container_not_found : InterchainDaemonError C
  daemon : DaemonError → InterchainDaemonError C
  daemon_not_found already_registered : String → InterchainDaemonError C
  channel_creation_events_not_found : String → InterchainChannel C → InterchainDaemonError C

unfoldable pub parse_network :
    {Price : Type 0} → List (ChainInfo Price) → String → Outcome String (ChainInfo Price)
parse_network [] net_id = err (String.◌++◌ "Network not found: " net_id)
parse_network (net ∷ networks) net_id =
    let rest = parse_network networks net_id in if net.chain_id == net_id then ok net else rest

-- What `Ibc::_channel` gives.
pub record ChannelEnd : Type 0 where
  pub is_open : Bool
  pub counterparty : Option (String × String)

-- The inspector's registered chains, with what it calls: the transport and the known networks, the
-- queries of a node, the parsers of identifiers, and which of two searches is done first. `debug` is the
-- debug text of two ports, and `show` the text of a number.
pub record Inspector (N C Bytes Time Price Endpoint Client : Type 0) : Type 0 where
  pub registered_chains : String → Option C
  pub transport : Transport N Endpoint Client C
  pub supported_networks : List (ChainInfo Price)
  pub max_tx_query_retries : ℕ
  pub channel : C → String → String → Exec N DaemonError ChannelEnd
  pub connection_client_chain_id : C → String → Exec N DaemonError String
  pub get_txs : C → List String → Request N (List (CosmTxResponse Bytes Time))
  pub decoding : Decoding Bytes
  pub parse_port : String → Outcome String String
  pub parse_channel : String → Outcome String String
  pub parse_sequence : String → Outcome String ℕ
  pub cycle_is_first : N → Bool
  pub show : ℕ → String
  pub debug : IbcPort C → IbcPort C → String
  pub debug_events : List String → String

module _ {N C Bytes Time Price Endpoint Client : Type 0}
    (i : Inspector N C Bytes Time Price Endpoint Client) where
  unregistered : String → Option C → Exec N (InterchainDaemonError C) C
  unregistered chain_id (some c) = pure c
  unregistered chain_id none =
      lift (unwrap_network (parse_network i.supported_networks chain_id)) >>= λ data_.
      map_error daemon (GrpcChannel.connect i.transport data_.grpc_urls chain_id)
    where
      unwrap_network :
          Outcome String (ChainInfo Price) → Outcome (InterchainDaemonError C) (ChainInfo Price)
      unwrap_network (ok info) = ok info
      unwrap_network (err e) = panic
      unwrap_network panic = panic

  unfoldable pub get_grpc_channel : String → Exec N (InterchainDaemonError C) C
  unfolding unregistered
  get_grpc_channel chain_id = unregistered chain_id (i.registered_chains chain_id)

  exactly_one :
      List (CosmTxResponse Bytes Time)
      → Outcome (InterchainDaemonError C) (CosmTxResponse Bytes Time)
  exactly_one (tx ∷ []) = ok tx
  exactly_one txs = err (
      daemon (
        ibc_error
          "Found multiple transactions matching a send packet event, this is impossible (or cw-orch impl is at fault)"))

  unfoldable pub get_tx_by_events_and_assert_one :
      C → List String → Exec N (InterchainDaemonError C) (CosmTxResponse Bytes Time)
  unfolding exactly_one
  get_tx_by_events_and_assert_one c events =
      map_error daemon
        (find_some_tx_by_events (i.get_txs c events) (i.debug_events events) i.max_tx_query_retries)
      >>= λ txs. lift (exactly_one txs)

  ports : String → InterchainChannel C → Exec N (InterchainDaemonError C) (IbcPort C × IbcPort C)
  ports from channel = lift (map_err interchain_error (get_ordered_ports_from channel from))

  attribute_is : String → String → String → String
  attribute_is event key value = String.◌++◌ event (String.◌++◌ key (String.◌++◌ value "'"))

  conditions : String → IbcPort C → ℕ → String → List String
  unfolding attribute_is
  conditions event dst sequence dst_channel =
      attribute_is event ".packet_dst_port='" dst.port
      ∷ attribute_is event ".packet_dst_channel='" dst_channel
      ∷ attribute_is event ".packet_sequence='" (i.show sequence)
      ∷ []

  -- The conditions of a search for the packet, on the events of one kind.
  packet_events :
      String → IbcPort C → IbcPort C → ℕ → Exec N (InterchainDaemonError C) (List String)
  unfolding conditions
  packet_events event src dst sequence =
      lift (
        ok_or dst.channel
          (daemon (ibc_error (String.◌++◌ "No channel registered between " (i.debug src dst)))))
      >>= λ dst_channel. pure (conditions event dst sequence dst_channel)

  -- The search on the chain that sent the packet, and on the chain that receives it.
  on_source :
      String
      → String
      → InterchainChannel C
      → ℕ
      → Exec N (InterchainDaemonError C) (CosmTxResponse Bytes Time)
  unfolding ports packet_events
  on_source event from channel sequence = do
    ends ← ports from channel
    events ← packet_events event ends.0 ends.1 sequence
    get_tx_by_events_and_assert_one ends.0.chain events

  unfoldable pub get_packet_send_tx :
      String
      → InterchainChannel C
      → ℕ
      → Exec N (InterchainDaemonError C) (CosmTxResponse Bytes Time)
  unfolding on_source
  get_packet_send_tx = on_source "send_packet"

  unfoldable pub get_packet_receive_tx :
      String
      → InterchainChannel C
      → ℕ
      → Exec N (InterchainDaemonError C) (CosmTxResponse Bytes Time)
  unfolding ports packet_events
  get_packet_receive_tx from channel sequence = do
    ends ← ports from channel
    events ← packet_events "recv_packet" ends.0 ends.1 sequence
    get_tx_by_events_and_assert_one ends.1.chain events

  unfoldable pub get_packet_timeout_tx :
      String
      → InterchainChannel C
      → ℕ
      → Exec N (InterchainDaemonError C) (CosmTxResponse Bytes Time)
  unfolding on_source
  get_packet_timeout_tx = on_source "timeout_packet"

  unfoldable pub get_packet_ack_receive_tx :
      String
      → InterchainChannel C
      → ℕ
      → Exec N (InterchainDaemonError C) (CosmTxResponse Bytes Time)
  unfolding on_source
  get_packet_ack_receive_tx = on_source "acknowledge_packet"
