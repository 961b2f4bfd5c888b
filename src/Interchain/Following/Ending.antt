-- ===== src/Interchain/Following/Ending.antt =====
-- How much fuel the following of packets needs: more than the number of relays that can come one
-- after the other.
use cw_orchestrator.Common.{
  ℕ, zero, suc, String, ◌≡◌, ◌<◌, ◌≤◌, arith, List, [], ◌∷◌, Outcome, ok, err, panic, All, All-map,
  ◌≢◌, sym, ok_injective, map_err, map_err-ok,
}
use cw_orchestrator.Common.Exec.{Exec, >>=-not-err, >>=-eq-ok, map_error}
use cw_orchestrator.Interchain.Analysis.{TxId, TxAnalysis}
use cw_orchestrator.Interchain.Following.{
  IbcPacketInfo, PacketOutcome, timeout, success, SimpleAnalysis, Follower, Stop, out_of_fuel,
  failed, analyze_outcome, follow, analyze_packets, await_packets, follow_all, analyze_all,
  wait_ibc,
}

not_failed :
    {E A : Type 0} (r : Outcome E A)
    → Path (Outcome (Stop E) A) (map_err failed r) (err out_of_fuel)
    → ⊥
not_failed (ok a) h = cc
not_failed (err e) h = cc
not_failed panic h = cc

not_ok : {E A : Type 0} {a : A} → Path (Outcome (Stop E) A) (ok a) (err out_of_fuel) → ⊥
not_ok h = cc

module _ {N R E : Type 0} (f : Follower N R E) (rank : R → ℕ) where
  abbrev Below : ℕ → PacketOutcome (TxId R) → Type 0
  Below b (timeout tx) = rank tx.response < b
  Below b (success receive_tx ack_tx ack) =
      (rank receive_tx.response < b) × (rank ack_tx.response < b)

  -- The transactions that relay the packets of a transaction have a smaller rank than it has.
  unfoldable pub IsRanked : Type 0
  IsRanked =
      (chain_id : String) (tx : R) (n : N) (packets : List IbcPacketInfo)
      → (f.find_packets chain_id tx n).0 ≡ ok packets
      → All
          (λ p.
            (m : N) (r : SimpleAnalysis R)
            → (f.follow_packet chain_id p m).0 ≡ ok r
            → Below (rank tx) r.outcome)
          packets

  abbrev Ends : ℕ → (String → R → Exec N (Stop E) (TxAnalysis R)) → Type 0
  Ends b again =
      (chain_id : String) (tx : R) (n : N)
      → rank tx < b
      → (again chain_id tx n).0 ≡ err out_of_fuel
      → ⊥

  module _ (b : ℕ) (again : String → R → Exec N (Stop E) (TxAnalysis R)) (ends : Ends b again) where
    analyze_outcome-ends :
        (o : PacketOutcome (TxId R)) (n : N)
        → Below b o
        → (analyze_outcome again o n).0 ≡ err out_of_fuel
        → ⊥
    unfolding analyze_outcome
    analyze_outcome-ends (timeout tx) n h =
        >>=-not-err (again tx.chain_id tx.response) _ n _ (ends _ _ n h) (λ a e. not_ok)
    analyze_outcome-ends (success r t ack) n (h, h') =
        >>=-not-err (again r.chain_id r.response) _ n _ (ends _ _ n h)
          (λ a e. >>=-not-err (again t.chain_id t.response) _ _ _ (ends _ _ _ h') (λ c e. not_ok))

    FollowsBelow : String → IbcPacketInfo → Type 0
    FollowsBelow chain_id p =
        (m : N) (r : SimpleAnalysis R) → (f.follow_packet chain_id p m).0 ≡ ok r → Below b r.outcome

    follow-ends :
        (chain_id : String) (p : IbcPacketInfo) (n : N)
        → (follow f chain_id p n).0 ≡ err out_of_fuel
        → ⊥
    unfolding wait_ibc
    follow-ends chain_id p n =
        >>=-not-err (map_error failed (f.follow_packet chain_id p)) _ n _ (not_failed _)
          (λ r e. not_ok)

    follow-Below :
        (chain_id : String) (p : IbcPacketInfo) (n : N) (o : PacketOutcome (TxId R))
        → FollowsBelow chain_id p
        → (follow f chain_id p n).0 ≡ ok o
        → Below b o
    unfolding wait_ibc FollowsBelow
    follow-Below chain_id p n o below h =
        let (r, followed, e) = >>=-eq-ok (map_error failed (f.follow_packet chain_id p)) _ n h in
        rw (sym (ok_injective _ o (rw e at h))) (below n r (map_err-ok failed _ followed))

    analyze_packets-ends :
        (tx : TxId R) (packets : List IbcPacketInfo) (n : N)
        → All (FollowsBelow tx.chain_id) packets
        → (analyze_packets f again tx packets n).0 ≡ err out_of_fuel
        → ⊥
    unfolding await_packets
    analyze_packets-ends tx [] n below = not_ok
    analyze_packets-ends tx (p ∷ packets) n (below, belows) =
        >>=-not-err (follow f tx.chain_id p) _ n _ (follow-ends tx.chain_id p n) (λ o e.
          >>=-not-err (analyze_outcome again o) _ _ _
            (analyze_outcome-ends o _ (follow-Below tx.chain_id p n o below e))
            (λ y e'.
              >>=-not-err (analyze_packets f again tx packets) _ _ _
                (analyze_packets-ends tx packets _ belows) (λ rest e''. not_ok)))

    follow_all-ends :
        (chain_id : String) (packets : List IbcPacketInfo) (n : N)
        → (follow_all f chain_id packets n).0 ≡ err out_of_fuel
        → ⊥
    unfolding wait_ibc
    follow_all-ends chain_id [] n = not_ok
    follow_all-ends chain_id (p ∷ packets) n =
        >>=-not-err (follow f chain_id p) _ n _ (follow-ends chain_id p n) (λ o e.
          >>=-not-err (follow_all f chain_id packets) _ _ _ (follow_all-ends chain_id packets _)
            (λ os e'. not_ok))

    follow_all-Below :
        (chain_id : String) (packets : List IbcPacketInfo) (n : N)
        (os : List (PacketOutcome (TxId R)))
        → All (FollowsBelow chain_id) packets
        → (follow_all f chain_id packets n).0 ≡ ok os
        → All (Below b) os
    unfolding wait_ibc
    follow_all-Below chain_id [] n os below h = rw (sym (ok_injective [] os h)) tt
    follow_all-Below chain_id (p ∷ packets) n os (below, belows) h =
        let (o, followed, e) = >>=-eq-ok (follow f chain_id p) _ n h in
        let (rest, others, e₁) = >>=-eq-ok (follow_all f chain_id packets) _ _ (rw e at h) in
        rw (sym (ok_injective (o ∷ rest) os (rw (e, e₁) at h))) (
          follow-Below chain_id p n o below followed,
          follow_all-Below chain_id packets _ rest belows others,
        )

    analyze_all-ends :
        (tx : TxId R) (os : List (PacketOutcome (TxId R))) (n : N)
        → All (Below b) os
        → (analyze_all f again tx os n).0 ≡ err out_of_fuel
        → ⊥
    unfolding wait_ibc
    analyze_all-ends tx [] n below = not_ok
    analyze_all-ends tx (o ∷ os) n (below, belows) =
        >>=-not-err (analyze_outcome again o) _ n _ (analyze_outcome-ends o n below) (λ y e.
          >>=-not-err (analyze_all f again tx os) _ _ _ (analyze_all-ends tx os _ belows)
            (λ rest e'. not_ok))

  Below-weaken : (a b : ℕ) (o : PacketOutcome (TxId R)) → a ≤ b → Below a o → Below b o
  Below-weaken a b (timeout tx) le h = omega arith
  Below-weaken a b (success r t ack) le h = ground arith

  below_fuel :
      (b : ℕ) (again : String → R → Exec N (Stop E) (TxAnalysis R)) (ends : Ends b again)
      (chain_id : String) (tx : R) (n : N) (packets : List IbcPacketInfo)
      → IsRanked
      → rank tx ≤ b
      → (f.find_packets chain_id tx n).0 ≡ ok packets
      → All (FollowsBelow b again ends chain_id) packets
  unfolding IsRanked FollowsBelow
  below_fuel b again ends chain_id tx n packets ranked le found =
      All-map _ _ packets (λ p h m r e. Below-weaken (rank tx) b r.outcome le (h m r e))
        (ranked chain_id tx n packets found)

  -- If the transactions that relay the packets of a transaction always have a smaller rank than it
  -- has, `await_packets` does not run out of a fuel above the rank of its transaction.
  pub await_packets-ends :
      IsRanked
      → (fuel : ℕ) (chain_id : String) (tx : R) (n : N) → rank tx < fuel
      → (await_packets f fuel chain_id tx n).0 ≢ err out_of_fuel
  unfolding await_packets
  await_packets-ends ranked zero chain_id tx n lt = omega arith
  await_packets-ends ranked (suc fuel) chain_id tx n lt =
      let ih : Ends fuel (await_packets f fuel) = await_packets-ends ranked fuel in
      >>=-not-err (map_error failed (f.find_packets chain_id tx)) _ n _ (not_failed _) (λ packets e.
        >>=-not-err (analyze_packets f (await_packets f fuel) _ packets) _ _ _
          (analyze_packets-ends fuel (await_packets f fuel) ih _ packets _ (
            below_fuel fuel (await_packets f fuel) ih chain_id tx n packets ranked (omega arith)
              (map_err-ok failed _ e)))
          (λ x e'. not_ok))

  -- If the transactions that relay the packets of a transaction always have a smaller rank than it
  -- has, `wait_ibc` does not run out of a fuel above the rank of its transaction.
  pub wait_ibc-ends :
      IsRanked
      → (fuel : ℕ) (chain_id : String) (tx : R) (n : N) → rank tx < fuel
      → (wait_ibc f fuel chain_id tx n).0 ≢ err out_of_fuel
  unfolding wait_ibc
  wait_ibc-ends ranked zero chain_id tx n lt = omega arith
  wait_ibc-ends ranked (suc fuel) chain_id tx n lt =
      let ih : Ends fuel (wait_ibc f fuel) = wait_ibc-ends ranked fuel in
      >>=-not-err (map_error failed (f.find_packets chain_id tx)) _ n _ (not_failed _) (λ packets e.
        let below =
          below_fuel fuel (wait_ibc f fuel) ih chain_id tx n packets ranked (omega arith)
            (map_err-ok failed _ e) in
        >>=-not-err (follow_all f chain_id packets) _ _ _
          (follow_all-ends fuel (wait_ibc f fuel) ih chain_id packets _)
          (λ os e'.
            >>=-not-err (analyze_all f (wait_ibc f fuel) _ os) _ _ _
              (analyze_all-ends fuel (wait_ibc f fuel) ih _ os _
                (follow_all-Below fuel (wait_ibc f fuel) ih chain_id packets _ os below e'))
              (λ x e''. not_ok)))
