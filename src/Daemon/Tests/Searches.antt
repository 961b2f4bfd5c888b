-- ===== src/Daemon/Tests/Searches.antt =====
-- A node that counts requests and knows the transaction from the third one on.
use cw_orchestrator.Common.{
  ℕ, ◌+◌, ◌≤◌, ◌≡◌, ◌≢◌, refl, String, true, some, List, [], ◌∷◌, ok, leb, if◌then◌else◌,
}
use cw_orchestrator.Daemon.Node.{Request, find_tx_by_events_with_retries}
use cw_orchestrator.Daemon.Node.Retries.{find_tx_by_events-bounded}

abbrev late : Request ℕ (List String)
late n = (some (if leb n 1 then [] else "AB" ∷ []), n + 1)

find_tx_by_events-bounded_example :
    ((find_tx_by_events_with_retries late "events" 50 true 4 0).1 ≤ 0 + 4)
    × ((find_tx_by_events_with_retries late "events" 50 true 4 0).0 ≢ ok [])
find_tx_by_events-bounded_example =
    find_tx_by_events-bounded late (λ n. n) (λ n. refl) "events" 50 true 4 0

found_third : find_tx_by_events_with_retries late "events" 50 true 4 0 ≡ (ok ("AB" ∷ []), 3)
unfolding find_tx_by_events_with_retries
found_third = refl
