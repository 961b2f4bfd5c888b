-- ===== src/Daemon/Wallet/Sending.antt =====
-- What a sender gives back of a transaction, in cw-orch-daemon/src/senders/cosmos.rs.
use cw_orchestrator.Common.{
  ℕ, ◌≡◌, ap, ◌∙◌, arith, String, Option, none, some, List, [], Outcome, ok, err, ok_injective, eqb,
  Bool-cases, inl, inr,
}
use cw_orchestrator.Common.Exec.{>>=-eq-ok}
use cw_orchestrator.Daemon.Broadcaster.{broadcast, broadcast_helper, add_strategy}
use cw_orchestrator.Daemon.Broadcaster.Strategies.{
  insufficient_fee_strategy, account_sequence_strategy,
}
use cw_orchestrator.Daemon.Error.{Coin, DaemonError}
use cw_orchestrator.Daemon.TxBuilder.{TxResponse, Wallet, on_net}
use cw_orchestrator.Daemon.Wallet.{
  Network, CosmosOptions, assert_broadcast_code_cosm_response, commit_tx_any, prepared,
  broadcast_with, found,
}

module _ {N Msg Body Raw Tx : Type 0} (net : Network N Msg Body Tx) (wallet : Wallet N Body Raw)
    (options : CosmosOptions) (show : ℕ → String) (show_coin : Coin → String) where
  assert-ok :
      (tx checked : Tx)
      → assert_broadcast_code_cosm_response net tx ≡ ok checked
      → (tx ≡ checked) × (net.code_of tx ≡ 0)
  unfolding assert_broadcast_code_cosm_response
  assert-ok tx checked h = elim (Bool-cases (eqb (net.code_of tx) 0)) [
    | inl e ↦ (ok_injective tx checked (rw e at h), ground (arith, e))
    | inr e ↦ absurd (failed (rw e at h))
  ]
    where
      failed : {e : DaemonError} → Path (Outcome DaemonError Tx) (err e) (ok checked) → ⊥
      failed p = cc

  -- The broadcaster, with its two strategies, sent a transaction with a body of the messages at some
  -- height, and the node then found the transaction with its hash, which did not fail.
  pub record IsCommitted (fuel : ℕ) (msgs : List Msg) (memo : Option String) (tx : Tx)
      : Type 0 where
    pub height : ℕ
    pub start : N
    pub response : TxResponse
    pub broadcasted :
        (broadcast
          (broadcast_helper wallet)
          (on_net wallet.average_block_speed)
          fuel
          (add_strategy
            (add_strategy [] insufficient_fee_strategy)
            (account_sequence_strategy show show_coin))
          (record {
            builder = prepared net wallet options show show_coin msgs memo height;
            net = start;
          })).0
        ≡ ok (some response)
    pub asked : N
    pub answer : (net.find_tx response.txhash asked).0 ≡ ok tx
    pub code : net.code_of tx ≡ 0

  some_ok :
      {A : Type 0} (a b : A)
      → Path (Outcome DaemonError (Option A)) (ok (some a)) (ok (some b))
      → a ≡ b
  some_ok a b h = cc

  committed :
      (fuel : ℕ) (msgs : List Msg) (memo : Option String) (tx : Tx) (height : ℕ) (start later : N)
      (o : Option TxResponse)
      → (broadcast_with net wallet options show show_coin fuel
          (prepared net wallet options show show_coin msgs memo height)
          start).0
        ≡ ok o
      → (found net wallet options show show_coin o later).0 ≡ ok (some tx)
      → IsCommitted fuel msgs memo tx
  unfolding commit_tx_any
  committed fuel msgs memo tx height start later none sent h = cc
  committed fuel msgs memo tx height start later (some response) sent h =
      let (t, answer, q) = >>=-eq-ok (net.find_tx response.txhash) _ later h in
      let (checked, passed, q₁) =
        >>=-eq-ok (λ m. (assert_broadcast_code_cosm_response net t, m)) _ _ (rw q at h) in
      let (same, code) = assert-ok t checked passed in
      let same' = same ∙ some_ok checked tx (rw (q, q₁) at h) in
      record {
        height = height;
        start = start;
        response = response;
        broadcasted = sent;
        asked = later;
        answer = answer ∙ ap ok same';
        code = rw same' at code;
      }

  -- A transaction that `commit_tx_any` gives back was sent by the broadcaster, found by the hash of the
  -- broadcaster's response, and has the code zero.
  pub commit_tx_any-IsCommitted :
      (fuel : ℕ) (msgs : List Msg) (memo : Option String) (n : N) (tx : Tx)
      → (commit_tx_any net wallet options show show_coin fuel msgs memo n).0 ≡ ok (some tx)
      → IsCommitted fuel msgs memo tx
  unfolding commit_tx_any
  commit_tx_any-IsCommitted fuel msgs memo n tx h =
      let (height, known, q) = >>=-eq-ok net.block_height _ n h in
      let (response, sent, q₁) =
        >>=-eq-ok
          (broadcast_with net wallet options show show_coin fuel
            (prepared net wallet options show show_coin msgs memo height))
          (found net wallet options show show_coin) _ (rw q at h) in
      committed fuel msgs memo tx height _ _ response sent (rw (q, q₁) at h)
