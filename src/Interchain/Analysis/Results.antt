-- ===== src/Interchain/Analysis/Results.antt =====
-- What `into_result`, `get_success_packets` and `assert_no_timeout` say of a whole analysis.
use cw_orchestrator.Common.{
  String, ◌≡◌, ◌↔◌, refl, arith, true, Option, none, some, List, [], ◌∷◌, ◌++◌, Outcome, ok, unwrap,
  sym, >>=-ok, ok_injective, All, All-append, All-left, map, map-append, append_assoc, ◌||◌,
}
use cw_orchestrator.Interchain.Error.{InterchainError}
use cw_orchestrator.Interchain.Analysis.{
  TxAnalysis, analysis, Packets, no_packets, timed_out, succeeded, SuccessPacket, Decoders,
  polytone_ack, ics20_ack, ics004_ack, is_ok, check_ack, into_result, packets_into_result, success,
  get_success_packets, success_packets, assert_no_timeout, all_succeeded,
}

module _ (d : Decoders) where
  -- One of the three parsers takes the acknowledgement as a success.
  abbrev pub IsAccepted : Option String → Type 0
  IsAccepted none = ⊥
  IsAccepted (some ack) =
      (is_ok d (polytone_ack d ack) || (is_ok d (ics20_ack d ack) || is_ok d (ics004_ack d ack)))
      ≡ true

  check_ack-IsAccepted : (ack : String) → check_ack d ack ≡ ok tt → IsAccepted (some ack)
  unfolding check_ack
  check_ack-IsAccepted ack h = ground (arith, h)

  IsAccepted-check_ack : (ack : String) → IsAccepted (some ack) → check_ack d ack ≡ ok tt
  unfolding check_ack
  IsAccepted-check_ack ack h = ground (arith, h)

module _ {R : Type 0} where
  -- What each packet came to, at any depth: its acknowledgement, or none where it timed out.
  unfoldable mutual
    pub acks : TxAnalysis R → List (Option String)
    acks (analysis tx packets) = packets_acks packets

    pub packets_acks : Packets R → List (Option String)
    packets_acks no_packets = []
    packets_acks (timed_out send_tx tx rest) = none ∷ acks tx ++ packets_acks rest
    packets_acks (succeeded send_tx receive_tx ack_tx ack rest) =
        some ack ∷ acks receive_tx ++ (acks ack_tx ++ packets_acks rest)

  module _ (d : Decoders) where
    mutual
      unfolding into_result acks

      accepted : (t : TxAnalysis R) → into_result d t ≡ ok tt → All (IsAccepted d) (acks t)
      accepted (analysis tx packets) h = packets-IsAccepted packets h

      packets-IsAccepted :
          (ps : Packets R) → packets_into_result d ps ≡ ok tt → All (IsAccepted d) (packets_acks ps)
      packets-IsAccepted no_packets h = tt
      packets-IsAccepted (timed_out send_tx tx rest) h = cc
      packets-IsAccepted (succeeded send_tx receive_tx ack_tx ack rest) h =
          let (u, received, h₁) = >>=-ok (into_result d receive_tx) _ h in
          let (v, acknowledged, h₂) = >>=-ok (into_result d ack_tx) _ h₁ in
          let (w, checked, h₃) = >>=-ok (check_ack d ack) _ h₂ in
          (
            check_ack-IsAccepted d ack checked,
            All-append (IsAccepted d) (acks receive_tx) _ (accepted receive_tx received) (
                All-append (IsAccepted d) (acks ack_tx) _ (accepted ack_tx acknowledged)
                  (packets-IsAccepted rest h₃)),
          )

    mutual
      unfolding into_result acks

      passes : (t : TxAnalysis R) → All (IsAccepted d) (acks t) → into_result d t ≡ ok tt
      passes (analysis tx packets) h = packets_pass packets h

      packets_pass :
          (ps : Packets R) → All (IsAccepted d) (packets_acks ps) → packets_into_result d ps ≡ ok tt
      packets_pass no_packets h = refl
      packets_pass (timed_out send_tx tx rest) (h, hs) = absurd h
      packets_pass (succeeded send_tx receive_tx ack_tx ack rest) (h, hs) =
          let h₁ = All-left (IsAccepted d) (acks receive_tx) _ hs in
          let h₂ = All-left (IsAccepted d) (acks ack_tx) _ h₁.1 in
          rw
            (
              passes receive_tx h₁.0,
              passes ack_tx h₂.0,
              IsAccepted-check_ack d ack h,
              packets_pass rest h₂.1,
            )
            refl

    -- `into_result` succeeds on an analysis exactly if no packet of it, at any depth, timed out and one
    -- of the three parsers takes the acknowledgement of each as a success.
    pub into_result-acks :
        (t : TxAnalysis R) → (into_result d t ≡ ok tt) ↔ All (IsAccepted d) (acks t)
    into_result-acks t = (accepted t, passes t)

  mutual
    unfolding assert_no_timeout get_success_packets

    successes :
        (t : TxAnalysis R) {l : List (SuccessPacket R)}
        → assert_no_timeout t ≡ ok l
        → get_success_packets t ≡ ok l
    successes (analysis tx packets) h = packets_successes packets h

    packets_successes :
        (ps : Packets R) {l : List (SuccessPacket R)}
        → all_succeeded ps ≡ ok l
        → success_packets ps ≡ ok l
    packets_successes no_packets h = h
    packets_successes (timed_out send_tx tx rest) h = cc
    packets_successes (succeeded send_tx receive_tx ack_tx ack rest) h =
        let (tx, sent, h₁) = >>=-ok (unwrap send_tx) _ h in
        let (r, received, h₂) = >>=-ok (assert_no_timeout receive_tx) _ h₁ in
        let (a, acknowledged, h₃) = >>=-ok (assert_no_timeout ack_tx) _ h₂ in
        let (o, others, h₄) = >>=-ok (all_succeeded rest) _ h₃ in
        rw
          (
            sent,
            successes receive_tx received,
            successes ack_tx acknowledged,
            packets_successes rest others,
          )
          h₄

  -- Where `assert_no_timeout` gives a list of packets, `get_success_packets` gives the same list.
  pub assert_no_timeout-get_success_packets :
      (t : TxAnalysis R) (l : List (SuccessPacket R))
      → assert_no_timeout t ≡ ok l
      → get_success_packets t ≡ ok l
  assert_no_timeout-get_success_packets t l h = successes t h

  abbrev pub ack_of : SuccessPacket R → Option String
  ack_of p = some p.packet_ack

  map-three :
      (r a o : List (SuccessPacket R))
      → map ack_of r ++ (map ack_of a ++ map ack_of o) ≡ map ack_of ((r ++ a) ++ o)
  map-three r a o = simp (map-append, append_assoc)

  acks_joined :
      (p : SuccessPacket R) (r a o l : List (SuccessPacket R)) {x y z : List (Option String)}
      → x ≡ map ack_of r
      → y ≡ map ack_of a
      → z ≡ map ack_of o
      → Path (Outcome InterchainError (List (SuccessPacket R))) (ok ((p ∷ r ++ a) ++ o)) (ok l)
      → ack_of p ∷ x ++ (y ++ z) ≡ map ack_of l
  acks_joined p r a o l received acknowledged others h =
      rw (sym (ok_injective _ l h), received, acknowledged, others, map-three r a o) refl

  mutual
    unfolding assert_no_timeout acks

    acks_given :
        (t : TxAnalysis R) {l : List (SuccessPacket R)}
        → assert_no_timeout t ≡ ok l
        → acks t ≡ map ack_of l
    acks_given (analysis tx packets) h = packets_acks_given packets h

    packets_acks_given :
        (ps : Packets R) {l : List (SuccessPacket R)}
        → all_succeeded ps ≡ ok l
        → packets_acks ps ≡ map ack_of l
    packets_acks_given no_packets {l = l} h = rw (sym (ok_injective [] l h)) refl
    packets_acks_given (timed_out send_tx tx rest) h = cc
    packets_acks_given (succeeded send_tx receive_tx ack_tx ack rest) h =
        let (tx, sent, h₁) = >>=-ok (unwrap send_tx) _ h in
        let (r, received, h₂) = >>=-ok (assert_no_timeout receive_tx) _ h₁ in
        let (a, acknowledged, h₃) = >>=-ok (assert_no_timeout ack_tx) _ h₂ in
        let (o, others, h₄) = >>=-ok (all_succeeded rest) _ h₃ in
        acks_joined (success tx ack) r a o _ (acks_given receive_tx received)
          (acks_given ack_tx acknowledged) (packets_acks_given rest others) h₄

  -- Where `assert_no_timeout` gives a list of packets, no packet of the analysis, at any depth, timed
  -- out, and the list has the acknowledgement of each of them, in the order of the analysis.
  pub assert_no_timeout-acks :
      (t : TxAnalysis R) (l : List (SuccessPacket R))
      → assert_no_timeout t ≡ ok l
      → acks t ≡ map ack_of l
  assert_no_timeout-acks t l h = acks_given t h
