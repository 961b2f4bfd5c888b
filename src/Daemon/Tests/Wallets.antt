-- ===== src/Daemon/Tests/Wallets.antt =====
-- A wallet at a node that reports a balance and finds the transaction that was sent.
use cw_orchestrator.Common.{ℕ, String, ◌≡◌, refl, true, none, some, [], ◌∷◌, ok}
use cw_orchestrator.Common.Text.{contains}
use cw_orchestrator.Daemon.Error.{Coin}
use cw_orchestrator.Daemon.TxBuilder.{build, new}
use cw_orchestrator.Daemon.Broadcaster.{
  broadcast, broadcast_helper, attempt, rounds, pass, add_strategy, judge,
}
use cw_orchestrator.Daemon.Broadcaster.Strategies.{
  insufficient_fee_strategy, account_sequence_strategy,
}
use cw_orchestrator.Daemon.Tests.Broadcasts.{answer, node}
use cw_orchestrator.Daemon.Wallet.{
  Network, CosmosOptions, assert_wallet_balance, commit_tx_any, prepared,
  assert_broadcast_code_cosm_response,
}
use cw_orchestrator.Daemon.Wallet.Balance.{IsCovered, assert_wallet_balance-IsCovered}
use cw_orchestrator.Daemon.Wallet.Sending.{IsCommitted, commit_tx_any-IsCommitted}

abbrev fee : Coin
fee = record { denom = "ujuno"; amount = 30 }

abbrev rich : Network ℕ String String String
rich = record {
  balance = λ denom n. (ok (record { denom = denom; amount = 50 } ∷ []), n);
  read_line_lowercase = λ n. (ok "y", n);
  block_height = λ n. (ok 7, n);
  find_tx = λ hash n. (ok hash, n);
  code_of = λ tx. 0;
  raw_log_of = λ tx. "";
  exec_msg = λ msgs. "exec";
  build_body = λ msgs memo height. "body";
}

enough : (assert_wallet_balance rich true 2 fee 0).0 ≡ ok true
unfolding assert_wallet_balance
enough = refl

assert_wallet_balance-IsCovered_example : IsCovered rich fee
assert_wallet_balance-IsCovered_example = assert_wallet_balance-IsCovered rich fee true 2 0 enough

abbrev granted : CosmosOptions
granted = record { fee_granter = none; authz_granter = some "juno1granter" }

committed :
    (commit_tx_any rich
      (node (answer 0 ""))
      granted
      (λ n. "")
      (λ c. "")
      2
      ("a" ∷ "b" ∷ [])
      none
      0).0
    ≡ ok (some "AB")
unfolding commit_tx_any broadcast attempt broadcast_helper build prepared new rounds pass
    add_strategy judge insufficient_fee_strategy contains account_sequence_strategy
    assert_broadcast_code_cosm_response
committed = refl

commit_tx_any-IsCommitted_example :
    IsCommitted rich (node (answer 0 "")) granted (λ n. "") (λ c. "") 2 ("a" ∷ "b" ∷ []) none "AB"
commit_tx_any-IsCommitted_example =
    commit_tx_any-IsCommitted rich (node (answer 0 "")) granted (λ n. "") (λ c. "") 2
      ("a" ∷ "b" ∷ []) none 0 "AB" committed
