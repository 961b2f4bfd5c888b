-- ===== src/Interchain/Tests/Followed.antt =====
-- Chains on which a transaction is a number and sends one packet, whose timeout is the number before.
use cw_orchestrator.Common.{
  ℕ, zero, suc, ◌≡◌, ◌≢◌, refl, arith, none, List, [], ◌∷◌, ok, err, inl, sym, ok_injective,
}
use cw_orchestrator.Interchain.Analysis.{
  TxAnalysis, analysis, no_packets, SuccessPacket, get_success_packets,
}
use cw_orchestrator.Interchain.Following.{
  IbcPacketInfo, Follower, timeout, out_of_fuel, await_packets, wait_ibc,
}
use cw_orchestrator.Interchain.Following.Complete.{get_success_packets-following}
use cw_orchestrator.Interchain.Following.Ending.{IsRanked, wait_ibc-ends}

abbrev packet_of : ℕ → IbcPacketInfo
packet_of n = record {
  src_port = "transfer";
  src_channel = "channel-0";
  sequence = n;
  dst_chain_id = "osmosis-1";
}

abbrev sent_by : ℕ → List IbcPacketInfo
sent_by zero = []
sent_by (suc n) = packet_of n ∷ []

abbrev countdown : Follower Unit ℕ Unit
countdown = record {
  find_packets = λ chain_id tx n. (ok (sent_by tx), n);
  follow_packet = λ chain_id packet n. (
    ok (record {
      send_tx = none;
      outcome = timeout (record { chain_id = chain_id; response = packet.sequence });
    }),
    n,
  );
}

ranked : IsRanked countdown (λ tx. tx)
unfolding IsRanked
ranked chain_id zero n packets h = rw (sym (ok_injective _ packets h)) tt
ranked chain_id (suc k) n packets h =
    rw (sym (ok_injective _ packets h)) ((λ m r e. rw (sym (ok_injective _ r e)) (omega arith)), tt)

wait_ibc-ends_example : (wait_ibc countdown 3 "juno-1" 2 tt).0 ≢ err out_of_fuel
wait_ibc-ends_example = wait_ibc-ends countdown (λ tx. tx) ranked 3 "juno-1" 2 tt (omega arith)

abbrev followed : TxAnalysis ℕ
followed = analysis (record { chain_id = "juno-1"; response = 0 }) no_packets

awaited : (await_packets countdown 2 "juno-1" 0 tt).0 ≡ ok followed
unfolding await_packets
awaited = refl

get_success_packets-following_example :
    (l : List (SuccessPacket ℕ)) × (get_success_packets followed ≡ ok l)
get_success_packets-following_example =
    get_success_packets-following countdown 2 "juno-1" 0 tt followed (inl awaited)
