-- ===== src/Interchain/Analysis.antt =====
-- packages/interchain/interchain-core/src/types.rs, ack_parser.rs, and the analysis in env.rs
-- An analysis holds the list of its packets' analyses, each with the analyses of the transactions of
-- its outcome. A `Binary` is a text.
pub mod Events
pub mod Results
use Prim.Native.String
use cw_orchestrator.Common.{
  String, Bool, true, false, Option, none, some, List, [], ◌∷◌, ◌++◌, Outcome, ok, err, panic,
  ◌>>=◌, unwrap, if◌then◌else◌, or_outcome,
}
use cw_orchestrator.Core.Events.{Event, IndexResponse, StdError, no_value}
use cw_orchestrator.Interchain.Error.{
  InterchainError, packet_timeout, ack_decoding_failed, failed_ack_received,
}

pub record TxId (R : Type 0) : Type 0 where
  pub chain_id : String
  pub response : R

-- `IbcTxAnalysis`, and `Vec<FullIbcPacketAnalysis>` by the outcome of its first packet: the
-- sending, the transactions and the acknowledgement.
mutual
  pub data TxAnalysis (R : Type 0) : Type 0 where
    analysis : TxId R → Packets R → TxAnalysis R

  pub data Packets (R : Type 0) : Type 0 where
    no_packets : Packets R
    timed_out : Option (TxId R) → TxAnalysis R → Packets R → Packets R
    succeeded : Option (TxId R) → TxAnalysis R → TxAnalysis R → String → Packets R → Packets R

pub record SuccessPacket (R : Type 0) : Type 0 where
  pub send_tx : TxId R
  pub packet_ack : String

-- The shape of polytone's acknowledgements, of ICS-20's and of ICS-004's. The error of a query is its
-- debug text.
pub data Callback : Type 0 where
  query_ok : List String → Callback
  query_err : String → Callback
  execute_ok : String → Callback
  execute_err : String → Callback
  fatal_error : String → Callback

pub data Ack : Type 0 where
  result : String → Ack
  error : String → Ack

-- The decoders: `from_json` at two types, the protobuf decoding, whose response may be missing, and
-- the lossy decoding of UTF-8.
pub record Decoders : Type 0 where
  pub callback : String → Option Callback
  pub fungible : String → Option Ack
  pub ics004 : String → Option (Option Ack)
  pub lossy : String → String

module _ (d : Decoders) where
  unfoldable pub decode_ack_error : String → InterchainError
  decode_ack_error ack = ack_decoding_failed ack (d.lossy ack)

  callback_result : Callback → Outcome InterchainError Callback
  callback_result (query_ok r) = ok (query_ok r)
  callback_result (query_err e) =
      err (failed_ack_received (String.◌++◌ "Error during query on remote chain : " e))
  callback_result (execute_ok r) = ok (execute_ok r)
  callback_result (execute_err e) =
      err (failed_ack_received (String.◌++◌ "Error during execution on remote chain : " e))
  callback_result (fatal_error e) = err (failed_ack_received e)

  unfoldable pub polytone_ack : String → Outcome InterchainError Callback
  unfolding callback_result decode_ack_error
  polytone_ack ack = elim (d.callback ack) [
    | some c ↦ callback_result c
    | none ↦ err (decode_ack_error ack)
  ]

  fungible_result : Ack → Outcome InterchainError (Unit {0})
  fungible_result (result r) = ok tt
  fungible_result (error e) = err (failed_ack_received e)

  unfoldable pub ics20_ack : String → Outcome InterchainError (Unit {0})
  unfolding fungible_result decode_ack_error
  ics20_ack ack = elim (d.fungible ack) [
    | some a ↦ fungible_result a
    | none ↦ err (decode_ack_error ack)
  ]

  ics004_result : Ack → Outcome InterchainError String
  ics004_result (result r) = ok r
  ics004_result (error e) = err (failed_ack_received e)

  response_result : Option Ack → InterchainError → Outcome InterchainError String
  unfolding ics004_result
  response_result (some a) undecoded = ics004_result a
  response_result none undecoded = err undecoded

  unfoldable pub ics004_ack : String → Outcome InterchainError String
  unfolding response_result decode_ack_error
  ics004_ack ack = elim (d.ics004 ack) [
    | some response ↦ response_result response (decode_ack_error ack)
    | none ↦ err (decode_ack_error ack)
  ]

  abbrev pub is_ok : {A : Type 0} → Outcome InterchainError A → Bool
  is_ok (ok a) = true
  is_ok (err e) = false
  is_ok panic = false

  -- The three tests at the end of `into_result`.
  pub check_ack : String → Outcome InterchainError (Unit {0})
  check_ack ack =
      if is_ok (polytone_ack ack)
      then ok tt
      else if is_ok (ics20_ack ack)
      then ok tt
      else if is_ok (ics004_ack ack)
      then ok tt
      else err (ack_decoding_failed ack (d.lossy ack))

  module _ {R : Type 0} where
    unfoldable mutual
      -- `IbcTxAnalysis::into_result`
      pub into_result : TxAnalysis R → Outcome InterchainError (Unit {0})
      into_result (analysis tx packets) = packets_into_result packets

      -- `FullIbcPacketAnalysis::into_result`, of one packet after the other
      pub packets_into_result : Packets R → Outcome InterchainError (Unit {0})
      packets_into_result no_packets = ok tt
      packets_into_result (timed_out send_tx tx rest) = err packet_timeout
      packets_into_result (succeeded send_tx receive_tx ack_tx ack rest) =
          into_result receive_tx >>= λ _.
          into_result ack_tx >>= λ _. check_ack ack >>= λ _. packets_into_result rest

module _ {R : Type 0} where
  abbrev success : TxId R → String → SuccessPacket R
  success tx ack = record { send_tx = tx; packet_ack = ack }

  unfoldable mutual
    -- `IbcTxAnalysis::get_success_packets`
    pub get_success_packets : TxAnalysis R → Outcome InterchainError (List (SuccessPacket R))
    get_success_packets (analysis tx packets) = success_packets packets

    pub success_packets : Packets R → Outcome InterchainError (List (SuccessPacket R))
    success_packets no_packets = ok []
    success_packets (timed_out send_tx tx rest) = success_packets rest
    success_packets (succeeded send_tx receive_tx ack_tx ack rest) = unwrap send_tx >>= λ tx.
        get_success_packets receive_tx >>= λ received.
        get_success_packets ack_tx >>= λ acknowledged. success_packets rest >>= λ others.
        ok ((success tx ack ∷ received ++ acknowledged) ++ others)

  unfoldable mutual
    -- `IbcTxAnalysis::assert_no_timeout`
    pub assert_no_timeout : TxAnalysis R → Outcome InterchainError (List (SuccessPacket R))
    assert_no_timeout (analysis tx packets) = all_succeeded packets

    pub all_succeeded : Packets R → Outcome InterchainError (List (SuccessPacket R))
    all_succeeded no_packets = ok []
    all_succeeded (timed_out send_tx tx rest) = err packet_timeout
    all_succeeded (succeeded send_tx receive_tx ack_tx ack rest) = unwrap send_tx >>= λ tx.
        assert_no_timeout receive_tx >>= λ received. assert_no_timeout ack_tx >>= λ acknowledged.
        all_succeeded rest >>= λ others. ok ((success tx ack ∷ received ++ acknowledged) ++ others)

module _ {R : Type 0} (i : IndexResponse R) where
  unfoldable mutual
    pub events : TxAnalysis R → List Event
    events (analysis tx packets) = i.events_of tx.response ++ packets_events packets

    pub packets_events : Packets R → List Event
    packets_events no_packets = []
    packets_events (timed_out send_tx tx rest) = events tx ++ packets_events rest
    packets_events (succeeded send_tx receive_tx ack_tx ack rest) =
        (events receive_tx ++ events ack_tx) ++ packets_events rest

  unfoldable mutual
    pub event_attr_value : TxAnalysis R → String → String → Outcome StdError String
    event_attr_value (analysis tx packets) ty key =
        or_outcome (i.attr_value tx.response ty key) (packets_attr_value packets ty key)

    pub packets_attr_value : Packets R → String → String → Outcome StdError String
    packets_attr_value no_packets ty key = err (no_value ty key)
    packets_attr_value (timed_out send_tx tx rest) ty key =
        or_outcome (event_attr_value tx ty key) (packets_attr_value rest ty key)
    packets_attr_value (succeeded send_tx receive_tx ack_tx ack rest) ty key =
        or_outcome
          (or_outcome (event_attr_value receive_tx ty key) (event_attr_value ack_tx ty key))
          (packets_attr_value rest ty key)

  unfoldable mutual
    pub event_attr_values : TxAnalysis R → String → String → List String
    event_attr_values (analysis tx packets) ty key =
        i.attr_values tx.response ty key ++ packets_attr_values packets ty key

    pub packets_attr_values : Packets R → String → String → List String
    packets_attr_values no_packets ty key = []
    packets_attr_values (timed_out send_tx tx rest) ty key =
        event_attr_values tx ty key ++ packets_attr_values rest ty key
    packets_attr_values (succeeded send_tx receive_tx ack_tx ack rest) ty key =
        (event_attr_values receive_tx ty key ++ event_attr_values ack_tx ty key)
        ++ packets_attr_values rest ty key
