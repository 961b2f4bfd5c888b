-- ===== src/Daemon/Node.antt =====
-- The searches for a transaction in cw-orch-daemon/src/queriers/node.rs. The client of the node is a
-- request on a network state; waiting changes nothing here, and a request that fails only makes the
-- search wait and try again. The arguments of a request stay the same through a search.
pub mod Retries
use cw_orchestrator.Common.{
  ℕ, zero, suc, String, Bool, true, false, Option, none, some, List, [], ◌∷◌, Outcome, ok, err,
  panic, if◌then◌else◌, ◌&&◌,
}
use cw_orchestrator.Common.Exec.{Exec}
use cw_orchestrator.Daemon.Error.{DaemonError, tx_not_found}

-- The node's answer to one request, or none where the request fails.
abbrev pub Request : Type 0 → Type 0 → Type 0
Request N A = N → Option A × N

is_nil : {R : Type 0} → List R → Bool
is_nil [] = true
is_nil (r ∷ rs) = false

module _ {N R : Type 0} where
  -- The loop of `_find_tx_with_retries`. A response without a transaction panics.
  after_get_tx : Option (Option R) → Exec N DaemonError R → Exec N DaemonError R
  after_get_tx none again n = again n
  after_get_tx (some none) again n = (panic, n)
  after_get_tx (some (some r)) again n = (ok r, n)

  get_tx_loop : Request N (Option R) → DaemonError → ℕ → Exec N DaemonError R
  unfolding after_get_tx
  get_tx_loop get_tx not_found zero n = (err not_found, n)
  get_tx_loop get_tx not_found (suc retries) n =
      let (answer, n') = get_tx n in after_get_tx answer (get_tx_loop get_tx not_found retries) n'

  speed_known : Outcome DaemonError ℕ → Exec N DaemonError R → Exec N DaemonError R
  speed_known (ok speed) search n = search n
  speed_known (err e) search n = (err e, n)
  speed_known panic search n = (panic, n)

  -- `Node::_find_tx_with_retries`: the block speed is asked for first.
  unfoldable pub find_tx_with_retries :
      Exec N DaemonError ℕ → Request N (Option R) → String → ℕ → Exec N DaemonError R
  unfolding get_tx_loop speed_known
  find_tx_with_retries average_block_speed get_tx hash retries n =
      let (speed, n') = average_block_speed n in
      speed_known speed (get_tx_loop get_tx (tx_not_found hash retries) retries) n'

  after_get_txs : Bool → Option (List R) → Exec N DaemonError (List R) → Exec N DaemonError (List R)
  unfolding is_nil
  after_get_txs retry_on_empty none again n = again n
  after_get_txs retry_on_empty (some resp) again n =
      let later = again n in if retry_on_empty && is_nil resp then later else (ok resp, n)

  get_txs_loop : Request N (List R) → Bool → DaemonError → ℕ → Exec N DaemonError (List R)
  unfolding after_get_txs
  get_txs_loop get_txs retry_on_empty not_found zero n = (err not_found, n)
  get_txs_loop get_txs retry_on_empty not_found (suc retries) n =
      let (answer, n') = get_txs n in
      after_get_txs retry_on_empty answer (get_txs_loop get_txs retry_on_empty not_found retries) n'

  -- `Node::_find_tx_by_events_with_retries`. The error carries the number of retries of the
  -- environment, `max_retries`, whatever `retries` is. `events` is the text in the error.
  unfoldable pub find_tx_by_events_with_retries :
      Request N (List R) → String → ℕ → Bool → ℕ → Exec N DaemonError (List R)
  unfolding get_txs_loop
  find_tx_by_events_with_retries get_txs events max_retries retry_on_empty retries n =
      get_txs_loop get_txs retry_on_empty (tx_not_found events max_retries) retries n

  -- `Node::_find_tx_by_events`: an empty answer is an answer.
  unfoldable pub find_tx_by_events : Request N (List R) → String → ℕ → Exec N DaemonError (List R)
  find_tx_by_events get_txs events max_retries =
      find_tx_by_events_with_retries get_txs events max_retries false max_retries

  -- `Node::_find_some_tx_by_events`: an empty answer is tried again.
  unfoldable pub find_some_tx_by_events :
      Request N (List R) → String → ℕ → Exec N DaemonError (List R)
  find_some_tx_by_events get_txs events max_retries =
      find_tx_by_events_with_retries get_txs events max_retries true max_retries
