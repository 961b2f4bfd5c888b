-- ===== src/Daemon/Broadcaster/Strategies.antt =====
-- The two strategies of tx_broadcaster.rs, and when they meet what the sending of a transaction gives.
use mathlib.Core.Bool.{false≢true}
use cw_orchestrator.Common.{
  Outcome-cases, ℕ, String, ◌≡◌, ◌≢◌, true, false, Option, none, some, Outcome, ok, err, panic,
  arith, inl, inr,
}
use cw_orchestrator.Common.Text.{contains}
use cw_orchestrator.Daemon.Error.{Coin, DaemonError, insufficient_fee, to_string}
use cw_orchestrator.Daemon.Error.Reasons.{contains-tx_failed}
use cw_orchestrator.Daemon.SuggestedFee.{parse_suggested_fee}
use cw_orchestrator.Daemon.TxBuilder.{TxResponse, TxBuilder, Session, Wallet, fee_amount}
use cw_orchestrator.Daemon.Broadcaster.{
  infinite, finite, StrategyAction, RetryStrategy, strategy_condition_met,
  assert_broadcast_code_response, broadcast_helper,
}

-- `tx_response.as_ref().unwrap()` panics on an error.
raise_fee :
    {Body : Type 0} → TxBuilder Body → TxResponse → Option ℕ → Outcome DaemonError (TxBuilder Body)
raise_fee b r none = err (insufficient_fee r.raw_log)
raise_fee b r (some new_fee) = ok (fee_amount b new_fee)

raise_fee_to_suggested : {Body : Type 0} → StrategyAction Body
unfolding raise_fee
raise_fee_to_suggested b (ok r) = raise_fee b r (parse_suggested_fee r.raw_log)
raise_fee_to_suggested b (err e) = panic
raise_fee_to_suggested b panic = panic

unfoldable pub insufficient_fee_strategy : {Body : Type 0} → RetryStrategy Body
unfolding raise_fee_to_suggested
insufficient_fee_strategy = record {
  broadcast_condition = λ r. contains r.raw_log "insufficient fees";
  simulation_condition = λ e. false;
  action = some raise_fee_to_suggested;
  max_retries = finite 1;
  current_retries = 0;
  reason = "an insufficient fee error";
}

-- `show` and `show_coin` are the `Display` of an integer and of a coin.
module _ (show : ℕ → String) (show_coin : Coin → String) where
  unfoldable pub account_sequence_strategy : {Body : Type 0} → RetryStrategy Body
  account_sequence_strategy = record {
    broadcast_condition = λ r. contains r.raw_log "incorrect account sequence";
    simulation_condition = λ e. contains (to_string show show_coin e) "incorrect account sequence";
    action = none;
    max_retries = infinite;
    current_retries = 0;
    reason = "an account sequence error";
  }

  -- If the node answers with a code that is not zero and a log that names an incorrect account
  -- sequence, the strategy meets what the sending gives.
  pub account_sequence_strategy-meets :
      (Body : Type 0) (r : TxResponse)
      → r.code ≢ 0
      → contains r.raw_log "incorrect account sequence" ≡ true
      → strategy_condition_met
          (account_sequence_strategy {Body = Body})
          (assert_broadcast_code_response r)
        ≡ true
  unfolding account_sequence_strategy strategy_condition_met assert_broadcast_code_response
  account_sequence_strategy-meets Body r failed named =
      ground
        (arith, contains-tx_failed show show_coin r.code r.raw_log "incorrect account sequence")

code_of_helper :
    {N Body Raw : Type 0} (wallet : Wallet N Body Raw) (s : Session N Body) (r : TxResponse)
    → (broadcast_helper wallet s).0 ≡ ok r
    → r.code ≡ 0
unfolding broadcast_helper
code_of_helper wallet s r h = ground arith

-- Whatever a wallet's sending of a transaction gives, the strategy for insufficient fees meets it only
-- if the node accepted the transaction with code zero: a transaction that fails for its fee is an error,
-- and the strategy meets no error.
pub insufficient_fee_strategy-meets_accepted :
    {N Body Raw : Type 0} (wallet : Wallet N Body Raw) (s : Session N Body)
    → strategy_condition_met (insufficient_fee_strategy {Body = Body}) (broadcast_helper wallet s).0
      ≡ true
    → (r : TxResponse) × ((broadcast_helper wallet s).0 ≡ ok r) × (r.code ≡ 0)
unfolding insufficient_fee_strategy strategy_condition_met
insufficient_fee_strategy-meets_accepted {Body} wallet s met =
    elim (Outcome-cases (broadcast_helper wallet s).0) [
      | inl (r, e) ↦ (r, e, code_of_helper wallet s r e)
      | inr (inl (e, failed)) ↦ absurd (false≢true (rw failed at met))
      | inr (inr panicked) ↦ absurd (false≢true (rw panicked at met))
    ]
