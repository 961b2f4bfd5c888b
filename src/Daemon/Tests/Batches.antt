-- ===== src/Daemon/Tests/Batches.antt =====
-- The batch sender over a network that takes every transaction, and over a wallet whose first search
-- for a transaction fails.
use cw_orchestrator.Common.{
  ℕ, ◌≡◌, refl, String, List, [], ◌∷◌, ◌++◌, none, ok, err, All, eqb, if◌then◌else◌,
}
use cw_orchestrator.Common.Text.{contains}
use cw_orchestrator.Daemon.Error.{tx_not_found}
use cw_orchestrator.Daemon.TxBuilder.{build, new}
use cw_orchestrator.Daemon.Broadcaster.{
  broadcast_helper, attempt, rounds, pass, add_strategy, judge,
}
use cw_orchestrator.Daemon.Broadcaster
use cw_orchestrator.Daemon.Broadcaster.Strategies.{
  insufficient_fee_strategy, account_sequence_strategy,
}
use cw_orchestrator.Daemon.Batch.{
  BatchSender, BatchWallet, broadcast_immediately, broadcast, commit_tx_any,
}
use cw_orchestrator.Daemon.Batch.Delivery.{
  Act, commit, send, messages, run, sent_batches, broadcast-drops,
}
use cw_orchestrator.Daemon.Batch.Cosmos.{SendError, cosmos_wallet, IsSent, run-IsSent}
use cw_orchestrator.Daemon.Tests.Broadcasts.{answer, node}
use cw_orchestrator.Daemon.Wallet
use cw_orchestrator.Daemon.Wallet.{
  Network, CosmosOptions, prepared, assert_broadcast_code_cosm_response,
}

abbrev taking : BatchWallet (List String) String Unit Unit
taking = record {
  commit_tx_any = λ ms memo n. (ok tt, n ++ ms);
  type_url = λ m. m;
  immediate_type_urls = "MsgStoreCode" ∷ [];
  default = tt;
}

abbrev waiting : {N : Type 0} → N → BatchSender N String
waiting n = record { msgs = "first" ∷ []; net = n }

broadcast-drops_example :
    ((broadcast taking none ("late" ∷ []) (waiting [])).1.msgs ≡ [])
    × ((broadcast taking none ("late" ∷ []) (waiting [])).1.net ≡ "first" ∷ [])
unfolding broadcast
broadcast-drops_example =
    broadcast-drops taking (λ n. n) (λ ms memo n r h. refl) none ("late" ∷ []) (waiting []) tt refl

-- The network counts the transactions that it took; after the first one the node does not find it.
abbrev flaky : Network ℕ String String String
flaky = record {
  balance = λ denom n. (ok [], n);
  read_line_lowercase = λ n. (ok "y", n);
  block_height = λ n. (ok 7, n);
  find_tx = λ hash n. (if eqb n 1 then err (tx_not_found hash 1) else ok hash, n);
  code_of = λ tx. 0;
  raw_log_of = λ tx. "";
  exec_msg = λ msgs. "exec";
  build_body = λ msgs memo height. "body";
}

abbrev no_granter : CosmosOptions
no_granter = record { fee_granter = none; authz_granter = none }

abbrev wallet : BatchWallet ℕ String SendError String
wallet =
    cosmos_wallet flaky (node (answer 0 "")) no_granter (λ n. "") (λ c. "") 2 (λ m. m)
      ("MsgStoreCode" ∷ []) "empty"

abbrev acts : List (Act String)
acts = commit ("second" ∷ []) none ∷ send none ∷ commit ("third" ∷ []) none ∷ send none ∷ []

run-IsSent_example :
    (messages (sent_batches wallet acts (waiting 0)) ++ (run wallet acts (waiting 0)).msgs
      ≡ "first" ∷ "second" ∷ "third" ∷ [])
    × All
        (IsSent flaky
          (node (answer 0 ""))
          no_granter
          (λ n. "")
          (λ c. "")
          2
          (λ m. m)
          ("MsgStoreCode" ∷ [])
          "empty")
        (sent_batches wallet acts (waiting 0))
unfolding broadcast_immediately
run-IsSent_example =
    run-IsSent flaky (node (answer 0 "")) no_granter (λ n. "") (λ c. "") 2 (λ m. m)
      ("MsgStoreCode" ∷ []) "empty" acts (waiting 0)

-- One batch was sent with success, in the second of two transactions that the network took.
sent_again :
    (sent_batches wallet acts (waiting 0) ≡ ("first" ∷ "second" ∷ "third" ∷ [], none) ∷ [])
    × ((run wallet acts (waiting 0)).net ≡ 2)
unfolding broadcast_immediately broadcast commit_tx_any Wallet.commit_tx_any Broadcaster.broadcast
    attempt broadcast_helper build prepared new rounds pass add_strategy judge
    insufficient_fee_strategy contains account_sequence_strategy assert_broadcast_code_cosm_response
sent_again = (refl, refl)
