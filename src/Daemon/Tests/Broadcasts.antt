-- ===== src/Daemon/Tests/Broadcasts.antt =====
-- The broadcaster at a network that counts transactions and a node that answers each with `answer`.
use cw_orchestrator.Common.{
  ℕ, ◌+◌, ◌≤◌, ◌≡◌, ◌≢◌, refl, some, String, true, none, [], ◌∷◌, ok, err, arith,
}
use cw_orchestrator.Common.Exec.{Exec}
use cw_orchestrator.Common.Text.{contains}
use cw_orchestrator.Daemon.Error.{Coin, DaemonError, tx_failed}
use cw_orchestrator.Daemon.TxBuilder.{
  TxResponse, BaseAccount, Unsigned, Wallet, Session, build, on_net, gas_limit,
}
use cw_orchestrator.Daemon.Broadcaster.{
  RetryStrategy, finite, infinite, broadcast, rounds, pass, resend, act, judge, can_retry,
  broadcast_helper, attempt, strategy_condition_met, assert_broadcast_code_response,
}
use cw_orchestrator.Daemon.Broadcaster.Strategies.{
  insufficient_fee_strategy, account_sequence_strategy, insufficient_fee_strategy-meets_accepted,
}
use cw_orchestrator.Daemon.Broadcaster.Termination.{
  broadcast-returns, broadcast-bounded, broadcast-unlimited,
}
use cw_orchestrator.Daemon.SuggestedFee.{
  parse_suggested_fee, parse_suggested_fee-none, split, paid_denomination, is_numeric,
}

abbrev pub answer : ℕ → String → TxResponse
answer code raw_log = record { code = code; raw_log = raw_log; txhash = "AB" }

abbrev account : BaseAccount
account = record { account_number = 3; sequence = 5 }

abbrev pub node : TxResponse → Wallet ℕ String (Unsigned String)
node r = record {
  base_account = λ n. (ok account, n);
  calculate_gas = λ body seq number n. (ok 100, n);
  get_fee_from_gas = λ gas. ok (gas + 30, gas);
  sign_tx = λ tx. ok tx;
  broadcast_tx = λ tx n. (ok r, n + 1);
  average_block_speed = λ n. (ok 6, n);
}

abbrev fresh : Session ℕ String
fresh = record {
  builder = record { body = "msg"; fee_amount = none; gas_limit = none; sequence = none };
  net = 0;
}

abbrev twice : RetryStrategy String
twice = record {
  broadcast_condition = λ r. true;
  simulation_condition = λ e. true;
  action = none;
  max_retries = finite 2;
  current_retries = 0;
  reason = "a test";
}

abbrev forever : RetryStrategy String
forever = record twice { max_retries = infinite }

abbrev refusing : Wallet ℕ String (Unsigned String)
refusing = node (answer 32 "incorrect account sequence")

abbrev accepting : Wallet ℕ String (Unsigned String)
accepting = node (answer 0 "")

-- The numbers and coins of these tests are all shown alike.
abbrev show : ℕ → String
show n = "1"

abbrev show_coin : Coin → String
show_coin c = "1ujuno"

abbrev account_sequence : RetryStrategy String
account_sequence = account_sequence_strategy show show_coin

abbrev send : Wallet ℕ String (Unsigned String) → Exec (Session ℕ String) DaemonError TxResponse
send wallet = broadcast_helper wallet

abbrev speed : Wallet ℕ String (Unsigned String) → Exec (Session ℕ String) DaemonError ℕ
speed wallet = on_net wallet.average_block_speed

broadcast-returns_example :
    (broadcast (send refusing) (speed refusing) 3 (twice ∷ []) fresh).0 ≢ ok none
broadcast-returns_example =
    broadcast-returns (send refusing) (speed refusing) 3 (twice ∷ []) fresh (tt, tt) (omega arith)

broadcast-bounded_example :
    (broadcast (send refusing) (speed refusing) 3 (twice ∷ []) fresh).1.net ≤ 0 + (1 + 2)
broadcast-bounded_example =
    broadcast-bounded refusing (λ n. n) (λ n. refl) (λ body seq number n. refl) (λ n. refl)
      (λ raw n. refl) 3 (twice ∷ []) fresh (tt, tt) (omega arith)

-- The run itself: three transactions, and the last error.
broadcast_run :
    (broadcast (send refusing) (speed refusing) 3 (twice ∷ []) fresh).0
    ≡ err (tx_failed 32 "incorrect account sequence")
unfolding broadcast rounds pass resend act attempt judge strategy_condition_met can_retry
    broadcast_helper build assert_broadcast_code_response gas_limit
broadcast_run = refl

-- The node refuses every transaction alike.
refused :
    (s : Session ℕ String)
    → (attempt (send refusing) (speed refusing) s).0
      ≡ ok (err (tx_failed 32 "incorrect account sequence"))
unfolding attempt broadcast_helper build assert_broadcast_code_response
refused s = ground arith

broadcast-unlimited_example :
    (broadcast (send refusing) (speed refusing) 100 (forever ∷ []) fresh).0 ≡ ok none
unfolding strategy_condition_met
broadcast-unlimited_example =
    broadcast-unlimited (send refusing) (speed refusing) forever
      (err (tx_failed 32 "incorrect account sequence")) refl refl refl refused (λ s. (6, refl)) 100
      fresh

-- The node accepts the transaction, with a log that names insufficient fees.
abbrev remarking : Wallet ℕ String (Unsigned String)
remarking = node (answer 0 "insufficient fees")

insufficient_fee_strategy-meets_accepted_example :
    (r : TxResponse) × ((broadcast_helper remarking fresh).0 ≡ ok r) × (r.code ≡ 0)
unfolding strategy_condition_met insufficient_fee_strategy broadcast_helper build
    assert_broadcast_code_response contains
insufficient_fee_strategy-meets_accepted_example =
    insufficient_fee_strategy-meets_accepted remarking fresh refl

parse_suggested_fee-none_example :
    parse_suggested_fee "insufficient fees; got: 14867ujuno required: 444255ujuno: insufficient fee"
    ≡ none
unfolding split paid_denomination is_numeric
parse_suggested_fee-none_example =
    parse_suggested_fee-none
      "insufficient fees; got: 14867ujuno required: 444255ujuno: insufficient fee"
      "insufficient fees; got: 14867ujuno " "444255ujuno: insufficient fee" "ujuno" refl refl
      (refl, (refl, (refl, (refl, (refl, (refl, tt))))))

-- The log of the test in the source.
two_denominations :
    parse_suggested_fee
      "insufficient fees; got: 14867ujuno required: 17771ibc/C4CFF46FD6DE35CA4CF4CE031E643C8FDC9BA4B99AE598E9B0ED98FE3A2319F9,444255ujuno: insufficient fee"
    ≡ some 444255
unfolding parse_suggested_fee
two_denominations = refl

one_denomination :
    parse_suggested_fee "insufficient fees; got: 14867ujuno required: 444255ujuno: insufficient fee"
    ≡ none
unfolding parse_suggested_fee
one_denomination = refl
