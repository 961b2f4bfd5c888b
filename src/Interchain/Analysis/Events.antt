-- ===== src/Interchain/Analysis/Events.antt =====
-- The events of an analysis are those of its responses, in the order in which it holds them.
use cw_orchestrator.Common.{
  String, ◌≡◌, refl, List, [], ◌∷◌, ◌++◌, Outcome, err, or_outcome, or_outcome_assoc, flat_map,
  append_assoc,
}
use cw_orchestrator.Core.Events.{IndexResponse, StdError, no_value}
use cw_orchestrator.Interchain.Analysis.{
  TxAnalysis, analysis, Packets, no_packets, timed_out, succeeded, event_attr_value,
  packets_attr_value, event_attr_values, packets_attr_values,
}

module _ {R : Type 0} where
  -- The responses of an analysis: its own, then those of each packet's transactions.
  unfoldable mutual
    pub responses : TxAnalysis R → List R
    responses (analysis tx packets) = tx.response ∷ packets_responses packets

    pub packets_responses : Packets R → List R
    packets_responses no_packets = []
    packets_responses (timed_out send_tx tx rest) = responses tx ++ packets_responses rest
    packets_responses (succeeded send_tx receive_tx ack_tx ack rest) =
        (responses receive_tx ++ responses ack_tx) ++ packets_responses rest

module _ {A B : Type 0} (f : A → List B) where
  flat_map-append : (xs ys : List A) → flat_map f (xs ++ ys) ≡ flat_map f xs ++ flat_map f ys
  flat_map-append [] ys = refl
  flat_map-append (x ∷ xs) ys = rw (flat_map-append xs ys, append_assoc) refl

module _ {R : Type 0} (i : IndexResponse R) (ty key : String) where
  -- The value that the first of some responses with one gives.
  abbrev pub first_found : List R → Outcome StdError String
  first_found [] = err (no_value ty key)
  first_found (r ∷ rs) = or_outcome (i.attr_value r ty key) (first_found rs)

  first_found-append :
      (xs ys : List R) → first_found (xs ++ ys) ≡ or_outcome (first_found xs) (first_found ys)
  first_found-append [] ys = refl
  first_found-append (x ∷ xs) ys =
      rw (first_found-append xs ys, or_outcome_assoc (i.attr_value x ty key)) refl

  mutual
    unfolding event_attr_value responses

    found : (t : TxAnalysis R) → event_attr_value i t ty key ≡ first_found (responses t)
    found (analysis tx packets) = rw (packets_found packets) refl

    packets_found :
        (ps : Packets R) → packets_attr_value i ps ty key ≡ first_found (packets_responses ps)
    packets_found no_packets = refl
    packets_found (timed_out send_tx tx rest) =
        rw (first_found-append (responses tx), found tx, packets_found rest) refl
    packets_found (succeeded send_tx receive_tx ack_tx ack rest) =
        rw
          (
            first_found-append (responses receive_tx ++ responses ack_tx),
            first_found-append (responses receive_tx),
            found receive_tx,
            found ack_tx,
            packets_found rest,
          )
          refl

  -- The attribute's value is the one that the first of the responses with one gives, and if none has
  -- one, the error that names the event and the key.
  pub event_attr_value-responses :
      (t : TxAnalysis R) → event_attr_value i t ty key ≡ first_found (responses t)
  event_attr_value-responses t = found t

  abbrev pub values_of : R → List String
  values_of r = i.attr_values r ty key

  mutual
    unfolding event_attr_values responses

    all_found : (t : TxAnalysis R) → event_attr_values i t ty key ≡ flat_map values_of (responses t)
    all_found (analysis tx packets) = rw (packets_all_found packets) refl

    packets_all_found :
        (ps : Packets R)
        → packets_attr_values i ps ty key ≡ flat_map values_of (packets_responses ps)
    packets_all_found no_packets = refl
    packets_all_found (timed_out send_tx tx rest) =
        rw (flat_map-append values_of (responses tx), all_found tx, packets_all_found rest) refl
    packets_all_found (succeeded send_tx receive_tx ack_tx ack rest) =
        rw
          (
            flat_map-append values_of (responses receive_tx ++ responses ack_tx),
            flat_map-append values_of (responses receive_tx),
            all_found receive_tx,
            all_found ack_tx,
            packets_all_found rest,
          )
          refl

  -- The attribute's values are those of each response, in their order.
  pub event_attr_values-responses :
      (t : TxAnalysis R) → event_attr_values i t ty key ≡ flat_map values_of (responses t)
  event_attr_values-responses t = all_found t
