-- ===== src/Daemon/Batch/Cosmos.antt =====
-- The batch sender over the wallet of cw-orch-daemon/src/senders/cosmos.rs.
use cw_orchestrator.Common.{
  ℕ, ◌≡◌, String, Option, none, some, List, [], ◌∷◌, ◌++◌, Outcome, ok, err, panic, refl, All,
  All-append,
}
use cw_orchestrator.Daemon.Batch.{BatchSender, BatchWallet, broadcast, emptied}
use cw_orchestrator.Daemon.Batch.Delivery.{
  Act, commit, send, messages, act, run, queued, if_sent, sent_batches, sent_batches-run,
}
use cw_orchestrator.Daemon.Error.{Coin, DaemonError}
use cw_orchestrator.Daemon.TxBuilder.{Wallet}
use cw_orchestrator.Daemon.Wallet.{Network, CosmosOptions, commit_tx_any}
use cw_orchestrator.Daemon.Wallet.Sending.{IsCommitted, commit_tx_any-IsCommitted}

-- A sending fails with an error of the daemon, or the fuel of its broadcaster ran out.
pub data SendError : Type 0 where
  failed : DaemonError → SendError
  out_of_fuel : SendError

abbrev pub settled : {Tx : Type 0} → Outcome DaemonError (Option Tx) → Outcome SendError Tx
settled (ok none) = err out_of_fuel
settled (ok (some tx)) = ok tx
settled (err e) = err (failed e)
settled panic = panic

module _ {N Msg Body Raw Tx : Type 0} (net : Network N Msg Body Tx) (wallet : Wallet N Body Raw)
    (options : CosmosOptions) (show : ℕ → String) (show_coin : Coin → String) (fuel : ℕ)
    (type_url : Msg → String) (immediate_type_urls : List String) (default : Tx) where
  -- `CosmosBatchSender::sender`
  abbrev pub cosmos_wallet : BatchWallet N Msg SendError Tx
  cosmos_wallet = record {
    commit_tx_any = λ ms memo n.
        let (r, n') = commit_tx_any net wallet options show show_coin fuel ms memo n in
        (settled r, n');
    type_url = type_url;
    immediate_type_urls = immediate_type_urls;
    default = default;
  }

  abbrev pub IsSent : List Msg × Option String → Type 0
  IsSent b = (tx : Tx) × IsCommitted net wallet options show show_coin fuel b.0 b.1 tx

  if_sent-IsSent :
      (ms : List Msg) (memo : Option String) (n : N) (r : Outcome DaemonError (Option Tx))
      (s : BatchSender N Msg)
      → (commit_tx_any net wallet options show show_coin fuel ms memo n).0 ≡ r
      → All IsSent (if_sent cosmos_wallet (emptied cosmos_wallet (settled r) s).0 (ms, memo))
  if_sent-IsSent ms memo n (ok none) s h = tt
  if_sent-IsSent ms memo n (ok (some tx)) s h =
      ((tx, commit_tx_any-IsCommitted net wallet options show show_coin fuel ms memo n tx h), tt)
  if_sent-IsSent ms memo n (err e) s h = tt
  if_sent-IsSent ms memo n panic s h = tt

  sent_batches-IsSent :
      (acts : List (Act Msg)) (s : BatchSender N Msg)
      → All IsSent (sent_batches cosmos_wallet acts s)
  unfolding broadcast
  sent_batches-IsSent [] s = tt
  sent_batches-IsSent (commit ms memo ∷ acts) s =
      sent_batches-IsSent acts (act cosmos_wallet (commit ms memo) s)
  sent_batches-IsSent (send memo ∷ acts) s =
      All-append IsSent _ _ (if_sent-IsSent s.msgs memo s.net _ _ refl)
        (sent_batches-IsSent acts (act cosmos_wallet (send memo) s))

  -- After any run of commits and broadcasts by one task, whichever of them fail, the messages of the
  -- batches whose broadcast succeeded, followed by those that still wait, are those that waited at
  -- first, followed by those that were committed and not sent at once, each once and in order. For each
  -- of these batches the broadcaster sent a transaction with a body of its messages, which the node then
  -- found by the hash of the response, with the code zero.
  pub run-IsSent :
      (acts : List (Act Msg)) (s : BatchSender N Msg)
      → (messages (sent_batches cosmos_wallet acts s) ++ (run cosmos_wallet acts s).msgs
          ≡ s.msgs ++ queued cosmos_wallet acts)
        × All IsSent (sent_batches cosmos_wallet acts s)
  run-IsSent acts s = (sent_batches-run cosmos_wallet acts s, sent_batches-IsSent acts s)
