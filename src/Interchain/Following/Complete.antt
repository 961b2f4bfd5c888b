-- ===== src/Interchain/Following/Complete.antt =====
-- What holds of every analysis that following the packets gives.
use cw_orchestrator.Common.{
  ℕ, zero, suc, String, ◌≡◌, refl, sym, some, List, [], ◌∷◌, ◌++◌, ok, ok_injective, ◌⊎◌, inl, inr,
}
use cw_orchestrator.Common.Exec.{Exec, >>=-eq-ok, map_error}
use cw_orchestrator.Interchain.Analysis.{
  TxId, TxAnalysis, analysis, Packets, no_packets, timed_out, succeeded, SuccessPacket,
  get_success_packets, success_packets,
}
use cw_orchestrator.Interchain.Following.{
  IbcPacketInfo, PacketOutcome, timeout, success, Follower, Stop, failed, analyze_outcome, attach,
  follow, analyze_packets, await_packets, follow_all, analyze_all, wait_ibc,
}

module _ {R : Type 0} where
  -- Every packet, at any depth, has as its sending the transaction of the analysis that holds it.
  abbrev mutual
    pub IsSent : TxAnalysis R → Type 0
    IsSent (analysis tx packets) = AreSent tx packets

    pub AreSent : TxId R → Packets R → Type 0
    AreSent tx no_packets = Unit
    AreSent tx (timed_out send_tx timeout_tx rest) =
        (send_tx ≡ some tx) × IsSent timeout_tx × AreSent tx rest
    AreSent tx (succeeded send_tx receive_tx ack_tx ack rest) =
        (send_tx ≡ some tx) × IsSent receive_tx × IsSent ack_tx × AreSent tx rest

  OutcomeIsSent : PacketOutcome (TxAnalysis R) → Type 0
  OutcomeIsSent (timeout tx) = IsSent tx
  OutcomeIsSent (success receive_tx ack_tx ack) = IsSent receive_tx × IsSent ack_tx

  attach-AreSent :
      (tx : TxId R) (o : PacketOutcome (TxAnalysis R)) (rest : Packets R)
      → OutcomeIsSent o
      → AreSent tx rest
      → AreSent tx (attach tx o rest)
  unfolding OutcomeIsSent
  attach-AreSent tx (timeout t) rest h k = (refl, h, k)
  attach-AreSent tx (success r a ack) rest (h, h') k = (refl, h, h', k)

  mutual
    unfolding get_success_packets

    gives :
        (t : TxAnalysis R)
        → IsSent t
        → (l : List (SuccessPacket R)) × (get_success_packets t ≡ ok l)
    gives (analysis tx packets) h = packets_give tx packets h

    packets_give :
        (tx : TxId R) (ps : Packets R)
        → AreSent tx ps
        → (l : List (SuccessPacket R)) × (success_packets ps ≡ ok l)
    packets_give tx no_packets h = ([], refl)
    packets_give tx (timed_out send_tx timeout_tx rest) (s, h, k) = packets_give tx rest k
    packets_give tx (succeeded send_tx receive_tx ack_tx ack rest) (s, h, h', k) =
        let (r, received) = gives receive_tx h in
        let (a, acknowledged) = gives ack_tx h' in
        let (o, others) = packets_give tx rest k in
        (
          (record { send_tx = tx; packet_ack = ack } ∷ r ++ a) ++ o,
          rw (s, received, acknowledged, others) refl,
        )

module _ {N R E : Type 0} (f : Follower N R E) where
  -- What the recursion is given keeps the property.
  abbrev Gives : (String → R → Exec N (Stop E) (TxAnalysis R)) → Type 0
  Gives again =
      (chain_id : String) (tx : R) (n : N) (a : TxAnalysis R)
      → (again chain_id tx n).0 ≡ ok a
      → IsSent a

  module _ (again : String → R → Exec N (Stop E) (TxAnalysis R)) (sent : Gives again) where
    analyze_outcome-IsSent :
        (o : PacketOutcome (TxId R)) (n : N) (x : PacketOutcome (TxAnalysis R))
        → (analyze_outcome again o n).0 ≡ ok x
        → OutcomeIsSent x
    unfolding analyze_outcome OutcomeIsSent
    analyze_outcome-IsSent (timeout tx) n x h =
        let (a, analyzed, e) = >>=-eq-ok (again tx.chain_id tx.response) _ n h in
        rw (sym (ok_injective (timeout a) x (rw e at h))) (sent _ _ n a analyzed)
    analyze_outcome-IsSent (success r t ack) n x h =
        let (a, received, e) = >>=-eq-ok (again r.chain_id r.response) _ n h in
        let (b, acknowledged, e₁) = >>=-eq-ok (again t.chain_id t.response) _ _ (rw e at h) in
        rw (sym (ok_injective (success a b ack) x (rw (e, e₁) at h)))
          (sent _ _ n a received, sent _ _ _ b acknowledged)

    analyze_packets-AreSent :
        (tx : TxId R) (packets : List IbcPacketInfo) (n : N) (x : Packets R)
        → (analyze_packets f again tx packets n).0 ≡ ok x
        → AreSent tx x
    unfolding await_packets
    analyze_packets-AreSent tx [] n x h = rw (sym (ok_injective no_packets x h)) tt
    analyze_packets-AreSent tx (p ∷ packets) n x h =
        let (o, followed, e) = >>=-eq-ok (follow f tx.chain_id p) _ n h in
        let (y, analyzed, e₁) = >>=-eq-ok (analyze_outcome again o) _ _ (rw e at h) in
        let (rest, others, e₂) =
          >>=-eq-ok (analyze_packets f again tx packets) _ _ (rw (e, e₁) at h) in
        rw (sym (ok_injective (attach tx y rest) x (rw (e, e₁, e₂) at h))) (
          attach-AreSent tx y rest (analyze_outcome-IsSent o _ y analyzed)
            (analyze_packets-AreSent tx packets _ rest others))

    analyze_all-AreSent :
        (tx : TxId R) (outcomes : List (PacketOutcome (TxId R))) (n : N) (x : Packets R)
        → (analyze_all f again tx outcomes n).0 ≡ ok x
        → AreSent tx x
    unfolding wait_ibc
    analyze_all-AreSent tx [] n x h = rw (sym (ok_injective no_packets x h)) tt
    analyze_all-AreSent tx (o ∷ outcomes) n x h =
        let (y, analyzed, e) = >>=-eq-ok (analyze_outcome again o) _ n h in
        let (rest, others, e₁) = >>=-eq-ok (analyze_all f again tx outcomes) _ _ (rw e at h) in
        rw (sym (ok_injective (attach tx y rest) x (rw (e, e₁) at h))) (
          attach-AreSent tx y rest (analyze_outcome-IsSent o n y analyzed)
            (analyze_all-AreSent tx outcomes _ rest others))

  -- Every packet of an analysis that `await_packets` gives, at any depth, carries as its sending the
  -- transaction of the analysis that holds it.
  pub await_packets-IsSent :
      (fuel : ℕ) (chain_id : String) (tx : R) (n : N) (a : TxAnalysis R)
      → (await_packets f fuel chain_id tx n).0 ≡ ok a
      → IsSent a
  unfolding await_packets
  await_packets-IsSent zero chain_id tx n a h = cc
  await_packets-IsSent (suc fuel) chain_id tx n a h =
      let (packets, found, e) = >>=-eq-ok (map_error failed (f.find_packets chain_id tx)) _ n h in
      let (x, analyzed, e₁) =
        >>=-eq-ok
          (analyze_packets f (await_packets f fuel) (record { chain_id = chain_id; response = tx })
            packets)
          _ _ (rw e at h) in
      rw (sym (ok_injective _ a (rw (e, e₁) at h))) (
        analyze_packets-AreSent (await_packets f fuel) (await_packets-IsSent fuel) _ packets _ x
          analyzed)

  -- Every packet of an analysis that `wait_ibc` gives, at any depth, carries as its sending the
  -- transaction of the analysis that holds it.
  pub wait_ibc-IsSent :
      (fuel : ℕ) (chain_id : String) (tx : R) (n : N) (a : TxAnalysis R)
      → (wait_ibc f fuel chain_id tx n).0 ≡ ok a
      → IsSent a
  unfolding wait_ibc
  wait_ibc-IsSent zero chain_id tx n a h = cc
  wait_ibc-IsSent (suc fuel) chain_id tx n a h =
      let (packets, found, e) = >>=-eq-ok (map_error failed (f.find_packets chain_id tx)) _ n h in
      let (os, followed, e₁) = >>=-eq-ok (follow_all f chain_id packets) _ _ (rw e at h) in
      let (x, analyzed, e₂) =
        >>=-eq-ok
          (analyze_all f (wait_ibc f fuel) (record { chain_id = chain_id; response = tx }) os) _ _
          (rw (e, e₁) at h) in
      rw (sym (ok_injective _ a (rw (e, e₁, e₂) at h)))
        (analyze_all-AreSent (wait_ibc f fuel) (wait_ibc-IsSent fuel) _ os _ x analyzed)

  -- An analysis that either environment gives lists its successful packets: `get_success_packets`
  -- neither fails nor panics on it.
  pub get_success_packets-following :
      (fuel : ℕ) (chain_id : String) (tx : R) (n : N) (a : TxAnalysis R)
      → ((await_packets f fuel chain_id tx n).0 ≡ ok a) ⊎ ((wait_ibc f fuel chain_id tx n).0 ≡ ok a)
      → (l : List (SuccessPacket R)) × (get_success_packets a ≡ ok l)
  get_success_packets-following fuel chain_id tx n a (inl h) =
      gives a (await_packets-IsSent fuel chain_id tx n a h)
  get_success_packets-following fuel chain_id tx n a (inr h) =
      gives a (wait_ibc-IsSent fuel chain_id tx n a h)
