-- ===== src/Interchain/Tests.antt =====
-- The theorems on packages/interchain at a transaction that sent one packet and had it acknowledged.
mod Followed
mod Created
mod Inspected
use cw_orchestrator.Common.{
  String, ◌≡◌, ◌↔◌, refl, Option, none, some, [], ◌∷◌, ok, ◌>>=◌, map_ok, ◌==◌, if◌then◌else◌, All,
}
use cw_orchestrator.Core.Events.{AppResponse}
use cw_orchestrator.Interchain.Channel.{
  IbcPort, InterchainChannel, get_ordered_ports_from, get_mut_ordered_ports_from,
  ordered-mut_ordered,
}
use cw_orchestrator.Interchain.Analysis.{
  TxId, TxAnalysis, analysis, no_packets, succeeded, SuccessPacket, Decoders, Ack, result,
  into_result,
}
use cw_orchestrator.Interchain.Analysis.Results.{acks, IsAccepted, into_result-acks}

abbrev sent : TxId AppResponse
sent = record {
  chain_id = "juno-1";
  response = record {
    events =
        record { ty = "send_packet"; attributes = record { key = "sequence"; value = "1" } ∷ [] }
        ∷ [];
    payload = none;
  };
}

abbrev received : TxId AppResponse
received = record { chain_id = "osmosis-1"; response = record { events = []; payload = none } }

abbrev relayed : TxAnalysis AppResponse
relayed = analysis sent (
    succeeded (some sent) (analysis received no_packets) (analysis sent no_packets) "ack"
      no_packets)

abbrev ics20 : String → Option Ack
ics20 s = if s == "ack" then some (result "1") else none

abbrev test_decoders : Decoders
test_decoders = record {
  callback = λ s. none;
  fungible = ics20;
  ics004 = λ s. none;
  lossy = λ s. s;
}

abbrev packet : SuccessPacket AppResponse
packet = record { send_tx = sent; packet_ack = "ack" }

into_result-acks_example :
    (into_result test_decoders relayed ≡ ok tt) ↔ All (IsAccepted test_decoders) (acks relayed)
into_result-acks_example = into_result-acks test_decoders relayed

abbrev port : String → IbcPort Unit
port chain_id = record {
  chain_id = chain_id;
  connection_id = none;
  port = "transfer";
  channel = none;
  chain = tt;
}

abbrev juno_osmosis : InterchainChannel Unit
juno_osmosis = record { port_a = port "juno-1"; port_b = port "osmosis-1" }

abbrev name_channels : IbcPort Unit × IbcPort Unit → IbcPort Unit × IbcPort Unit
name_channels ports =
    (record ports.0 { channel = some "channel-0" }, record ports.1 { channel = some "channel-1" })

ordered-mut_ordered_example :
    (get_mut_ordered_ports_from juno_osmosis "osmosis-1" name_channels >>= λ c.
    get_ordered_ports_from c "osmosis-1")
    ≡ map_ok name_channels (get_ordered_ports_from juno_osmosis "osmosis-1")
ordered-mut_ordered_example =
    ordered-mut_ordered juno_osmosis "osmosis-1" name_channels (λ p q. (refl, refl))
