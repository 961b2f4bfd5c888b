-- ===== src/Daemon/Error/Reasons.antt =====
-- What the text of a failed transaction contains.
use Prim.Native.String.{◌++◌}
use cw_orchestrator.Common.{ℕ, String, ◌≡◌, true}
use cw_orchestrator.Common.Text.{contains}
use cw_orchestrator.Common.Text.Substring.{contains-append_left, contains-append_right}
use cw_orchestrator.Daemon.Error.{Coin, tx_failed, to_string}

-- The text of `TxFailed` contains whatever its reason contains.
pub contains-tx_failed :
    (show : ℕ → String) (show_coin : Coin → String) (code : ℕ) (reason p : String)
    → contains reason p ≡ true
    → contains (to_string show show_coin (tx_failed code reason)) p ≡ true
unfolding to_string
contains-tx_failed show show_coin code reason p h =
    contains-append_right "tx failed: " (reason ++ (" with code " ++ show code)) p
      (contains-append_left reason (" with code " ++ show code) p h)
