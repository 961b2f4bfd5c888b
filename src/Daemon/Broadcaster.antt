-- ===== src/Daemon/Broadcaster.antt =====
-- cw-orch-daemon/src/tx_broadcaster.rs
-- One sending of a transaction is `broadcast_helper`; the broadcaster repeats it as its strategies
-- say. Waiting for the next block takes time and changes nothing here; asking the node for the block
-- speed before it can fail.
pub mod Strategies
pub mod Passes
pub mod Termination
use cw_orchestrator.Common.{
  ℕ, zero, suc, ◌+◌, String, Bool, true, false, Option, none, some, List, [], ◌∷◌, ◌++◌, Outcome,
  ok, err, panic, leb, eqb, if◌then◌else◌, map_ok,
}
use cw_orchestrator.Common.Exec.{Exec, pure, lift, ◌>>=◌, ◌>>◌}
use cw_orchestrator.Daemon.Error.{DaemonError, tx_failed}
use cw_orchestrator.Daemon.TxBuilder.{TxResponse, TxBuilder, Session, Wallet, build, on_net}

pub data BroadcastRetry : Type 0 where
  infinite : BroadcastRetry
  finite : ℕ → BroadcastRetry

-- `Result<TxResponse, DaemonError>`, the value that the loop holds.
abbrev pub Response : Type 0
Response = Outcome DaemonError TxResponse

abbrev pub StrategyAction : Type 0 → Type 0
StrategyAction Body = TxBuilder Body → Response → Outcome DaemonError (TxBuilder Body)

pub record RetryStrategy (Body : Type 0) : Type 0 where
  pub broadcast_condition : TxResponse → Bool
  pub simulation_condition : DaemonError → Bool
  pub action : Option (StrategyAction Body)
  pub max_retries : BroadcastRetry
  pub current_retries : ℕ
  pub reason : String

-- `TxBroadcaster::add_strategy`
unfoldable pub add_strategy :
    {Body : Type 0} → List (RetryStrategy Body) → RetryStrategy Body → List (RetryStrategy Body)
add_strategy strategies s = strategies ++ s ∷ []

module _ {Body : Type 0} where
  unfoldable pub strategy_condition_met : RetryStrategy Body → Response → Bool
  strategy_condition_met s (ok r) = s.broadcast_condition r
  strategy_condition_met s (err e) = s.simulation_condition e
  strategy_condition_met s panic = false

  count_retry : RetryStrategy Body → BroadcastRetry → RetryStrategy Body × Bool
  count_retry s infinite = (s, true)
  count_retry s (finite max_retries) = (
    record s { current_retries = s.current_retries + 1 },
    leb (s.current_retries + 1) max_retries,
  )

  unfoldable pub can_retry : RetryStrategy Body → RetryStrategy Body × Bool
  unfolding count_retry
  can_retry s = count_retry s s.max_retries

  -- `strategy_condition_met(s, &tx_response) && can_retry(s)`
  unfoldable pub judge : RetryStrategy Body → Response → RetryStrategy Body × Bool
  unfolding strategy_condition_met can_retry
  judge s response = if strategy_condition_met s response then can_retry s else (s, false)

unfoldable pub assert_broadcast_code_response : TxResponse → Response
assert_broadcast_code_response r = if eqb r.code 0 then ok r else err (tx_failed r.code r.raw_log)

-- What the loop carries from one pass over the strategies to the next.
pub record Pass (Body : Type 0) : Type 0 where
  pub strategies : List (RetryStrategy Body)
  pub response : Response
  pub retry : Bool

module _ {N Body Raw : Type 0} (wallet : Wallet N Body Raw) where
  unfoldable pub broadcast_helper : Exec (Session N Body) DaemonError TxResponse
  unfolding assert_broadcast_code_response
  broadcast_helper = do
    tx ← build wallet
    response ← on_net (wallet.broadcast_tx tx)
    lift (assert_broadcast_code_response response)

-- The loop, over the way to send and to ask for the block speed.
module _ {N Body : Type 0} (send : Exec (Session N Body) DaemonError TxResponse)
    (block_speed : Exec (Session N Body) DaemonError ℕ) where
  abbrev pub attempted : Response → Session N Body → Outcome DaemonError Response × Session N Body
  attempted (ok r) s = (ok (ok r), s)
  attempted (err e) s = (ok (err e), s)
  attempted panic s = (panic, s)

  -- An error of the sending is held as a value.
  unfoldable pub attempt : Exec (Session N Body) DaemonError Response
  attempt s = let (r, s') = send s in attempted r s'

  abbrev pub with_builder :
      Outcome DaemonError (TxBuilder Body) → Exec (Session N Body) DaemonError Unit
  with_builder (ok b) s = (ok tt, record s { builder = b })
  with_builder (err e) s = (err e, s)
  with_builder panic s = (panic, s)

  unfoldable pub act :
      Option (StrategyAction Body) → Response → Exec (Session N Body) DaemonError Unit
  act none response s = (ok tt, s)
  act (some action) response s = with_builder (action s.builder response) s

  -- The body of the `if`: the action, the wait, and the sending anew.
  unfoldable pub resend :
      Option (StrategyAction Body) → Response → Exec (Session N Body) DaemonError Response
  resend action response = do act action response; block_speed; attempt

  abbrev pub cons_strategy : RetryStrategy Body → Pass Body → Pass Body
  cons_strategy s p = record p { strategies = s ∷ p.strategies }

  -- The `for` loop over the strategies. After a resend it goes on with the next strategy.
  unfoldable pub pass :
      List (RetryStrategy Body) → Response → Bool → Exec (Session N Body) DaemonError (Pass Body)
  pass [] response retry = pure (record { strategies = []; response = response; retry = retry })
  pass (s ∷ rest) response retry =
      let (s', hit) = judge s response in
      if hit
      then (do
        response' ← resend s'.action response
        p ← pass rest response' true
        pure (cons_strategy s' p))
      else (do p ← pass rest response retry; pure (cons_strategy s' p))

  abbrev pub finish : Response → Outcome DaemonError (Option TxResponse)
  finish = map_ok some

  -- The `while` loop, with fuel; `none` means that the fuel ran out.
  unfoldable pub rounds :
      ℕ
      → List (RetryStrategy Body)
      → Response
      → Exec (Session N Body) DaemonError (Option TxResponse)
  rounds zero strategies response = pure none
  rounds (suc fuel) strategies response = do
    p ← pass strategies response false
    let again = rounds fuel p.strategies p.response
    if p.retry then again else lift (finish p.response)

  -- `TxBroadcaster::broadcast`
  unfoldable pub broadcast :
      ℕ → List (RetryStrategy Body) → Exec (Session N Body) DaemonError (Option TxResponse)
  broadcast fuel strategies = do response ← attempt; rounds fuel strategies response
