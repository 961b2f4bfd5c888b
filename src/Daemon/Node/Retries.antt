-- ===== src/Daemon/Node/Retries.antt =====
-- How many requests a search makes, and what it gives.
use cw_orchestrator.Common.{
  ℕ, zero, suc, ◌+◌, ◌≤◌, ◌≡◌, ◌≢◌, arith, String, Bool, true, false, Option, none, some, List, [],
  ◌∷◌, Outcome, ok,
}
use cw_orchestrator.Daemon.Error.{DaemonError, tx_not_found}
use cw_orchestrator.Daemon.Node.{
  Request, after_get_txs, get_txs_loop, find_tx_by_events_with_retries,
}

module _ {N R : Type 0} (get_txs : Request N (List R)) (count : N → ℕ)
    (counts : (n : N) → count (get_txs n).1 ≡ count n + 1) (events : String) (max_retries : ℕ) where
  after_get_txs-ne :
      (answer : Option (List R)) (again : N → Outcome DaemonError (List R) × N) (n : N)
      → (again n).0 ≢ ok []
      → (after_get_txs true answer again n).0 ≢ ok []
  unfolding after_get_txs
  after_get_txs-ne none again n h = h
  after_get_txs-ne (some []) again n h = h
  after_get_txs-ne (some (r ∷ rs)) again n h = λ e. cc

  after_get_txs-count :
      (retry : Bool) (answer : Option (List R)) (again : N → Outcome DaemonError (List R) × N)
      (n : N) (k : ℕ)
      → count (again n).1 ≤ count n + k
      → count (after_get_txs retry answer again n).1 ≤ count n + k
  unfolding after_get_txs
  after_get_txs-count retry none again n k h = h
  after_get_txs-count true (some []) again n k h = h
  after_get_txs-count false (some []) again n k h = omega arith
  after_get_txs-count true (some (r ∷ rs)) again n k h = omega arith
  after_get_txs-count false (some (r ∷ rs)) again n k h = omega arith

  loop-count :
      (retry : Bool) (e : DaemonError) (retries : ℕ) (n : N)
      → count (get_txs_loop get_txs retry e retries n).1 ≤ count n + retries
  unfolding get_txs_loop
  loop-count retry e zero n = omega arith
  loop-count retry e (suc retries) n =
      let n' = (get_txs n).1 in
      let rest =
        after_get_txs-count retry (get_txs n).0 (get_txs_loop get_txs retry e retries) n' retries
          (loop-count retry e retries n') in
      omega (arith, rest, counts n)

  loop-ne :
      (e : DaemonError) (retries : ℕ) (n : N) → (get_txs_loop get_txs true e retries n).0 ≢ ok []
  unfolding get_txs_loop
  loop-ne e zero n = λ h. cc
  loop-ne e (suc retries) n =
      after_get_txs-ne (get_txs n).0 (get_txs_loop get_txs true e retries) (get_txs n).1
        (loop-ne e retries (get_txs n).1)

  -- If each request is counted, a search by events, whether it retries on an empty answer or not, makes no
  -- more requests than it has retries; one that retries on an empty answer never gives an empty list.
  pub find_tx_by_events-bounded :
      (retry : Bool) (retries : ℕ) (n : N)
      → (count (find_tx_by_events_with_retries get_txs events max_retries retry retries n).1
          ≤ count n + retries)
        × ((find_tx_by_events_with_retries get_txs events max_retries true retries n).0 ≢ ok [])
  unfolding find_tx_by_events_with_retries
  find_tx_by_events-bounded retry retries n = (
    loop-count retry (tx_not_found events max_retries) retries n,
    loop-ne (tx_not_found events max_retries) retries n,
  )
