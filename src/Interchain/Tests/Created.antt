-- ===== src/Interchain/Tests/Created.antt =====
-- An environment that creates one channel.
use cw_orchestrator.Common.{String, ◌≡◌, ◌↔◌, refl, none, some, [], ◌∷◌, ok, All}
use cw_orchestrator.Core.Events.{app_response, AppResponse, event_attr_value, first_value}
use cw_orchestrator.Interchain.Analysis.{TxAnalysis, analysis, no_packets, Decoders}
use cw_orchestrator.Interchain.Analysis.Results.{acks, IsAccepted}
use cw_orchestrator.Interchain.Channel.{IbcPort, new, get_mut_ordered_ports_from}
use cw_orchestrator.Interchain.Error.{InterchainError}
use cw_orchestrator.Interchain.Environment.{
  InterchainEnv, ChannelCreation, ChannelCreationResult, create_channel, await_and_check_packets,
}
use cw_orchestrator.Interchain.Environment.Creation.{
  IsNamed, create_channel-IsNamed, await_and_check_packets-acks,
}

abbrev opened : AppResponse
opened = record {
  events =
      record {
        ty = "channel_open_try";
        attributes = record { key = "connection_id"; value = "connection-4" } ∷ [];
      }
      ∷ [];
  payload = none;
}

abbrev creation : ChannelCreation AppResponse
creation = record { init = opened; try_ = opened; ack = opened; confirm = opened }

abbrev analysed : String → AppResponse → TxAnalysis AppResponse
analysed chain_id tx = analysis (record { chain_id = chain_id; response = tx }) no_packets

abbrev env : InterchainEnv (Unit {0}) (Unit {0}) AppResponse (Unit {0}) (Unit {0}) InterchainError
env = record {
  handler_of = λ chain_id w. ok tt;
  internal_create_channel = λ src dst src_port dst_port version order w.
      (ok (record { created = tt; src_connection_id = "connection-0" }), w);
  get_channel_creation_txs = λ src channel created w. (
    ok (
      channel,
      record {
        src_channel_id = "channel-0";
        dst_channel_id = "channel-7";
        channel_creation_txs = creation;
      },
    ),
    w,
  );
  await_packets = λ chain_id tx w. (ok (analysed chain_id tx), w);
  into = λ e. e;
  response = app_response;
}

abbrev end_on : String → String → String → String → IbcPort (Unit {0})
end_on chain_id connection port channel = record {
  chain_id = chain_id;
  connection_id = some connection;
  port = port;
  channel = some channel;
  chain = tt;
}

abbrev named : ChannelCreationResult (Unit {0}) AppResponse
named = record {
  interchain_channel = record {
    port_a = end_on "juno-1" "connection-0" "wasm.a" "channel-0";
    port_b = end_on "osmosis-1" "connection-4" "wasm.b" "channel-7";
  };
  channel_creation_txs = record {
    init = analysed "juno-1" opened;
    try_ = analysed "osmosis-1" opened;
    ack = analysed "juno-1" opened;
    confirm = analysed "osmosis-1" opened;
  };
}

created : (create_channel env "juno-1" "osmosis-1" "wasm.a" "wasm.b" "v1" none tt).0 ≡ ok named
unfolding create_channel event_attr_value first_value get_mut_ordered_ports_from new
created = refl

create_channel-IsNamed_example :
    IsNamed env "juno-1" "osmosis-1" "wasm.a" "wasm.b" "v1" none tt named.interchain_channel
create_channel-IsNamed_example =
    create_channel-IsNamed env "juno-1" "osmosis-1" "wasm.a" "wasm.b" "v1" none tt named created

abbrev silent : Decoders
silent = record { callback = λ s. none; fungible = λ s. none; ics004 = λ s. none; lossy = λ s. s }

await_and_check_packets-acks_example :
    ((await_and_check_packets env silent "juno-1" opened tt).0 ≡ ok tt)
    ↔ (a : TxAnalysis AppResponse) × ((env.await_packets "juno-1" opened tt).0 ≡ ok a)
      × All (IsAccepted silent) (acks a)
await_and_check_packets-acks_example = await_and_check_packets-acks env silent "juno-1" opened tt
