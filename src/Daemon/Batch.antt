-- ===== src/Daemon/Batch.antt =====
-- cw-orch-daemon/src/senders/cosmos_batch.rs
-- The clones of a batch sender share its messages. While a broadcast awaits the wallet the other
-- tasks may run; what they queue meanwhile is an argument of the broadcast. The sender stands on any
-- wallet here; Cosmos has the one of senders/cosmos.rs.
pub mod Delivery
pub mod Cosmos
use cw_orchestrator.Common.{
  String, Bool, true, false, Option, List, [], ◌∷◌, ◌++◌, Outcome, ok, err, panic, if◌then◌else◌,
  ◌||◌, member,
}
use cw_orchestrator.Common.Exec.{Exec}

-- `CosmosBatchSender`, with the network state behind its wallet.
pub record BatchSender (N Msg : Type 0) : Type 0 where
  pub msgs : List Msg
  pub net : N

-- `Wallet::commit_tx_any` of messages and a memo, the type of a message and the types that are not
-- batched: the upload of code and the two instantiations. `default` is the empty response.
pub record BatchWallet (N Msg E R : Type 0) : Type 0 where
  pub commit_tx_any : List Msg → Option String → Exec N E R
  pub type_url : Msg → String
  pub immediate_type_urls : List String
  pub default : R

module _ {N Msg E R : Type 0} (wallet : BatchWallet N Msg E R) where
  unfoldable pub broadcast_immediately : List Msg → Bool
  broadcast_immediately [] = false
  broadcast_immediately (m ∷ ms) =
      member (wallet.type_url m) wallet.immediate_type_urls || broadcast_immediately ms

  -- `CosmosBatchSender::commit_tx_any`
  unfoldable pub commit_tx_any : List Msg → Option String → Exec (BatchSender N Msg) E R
  commit_tx_any ms memo s =
      let (r, net) = wallet.commit_tx_any ms memo s.net in
      if broadcast_immediately ms
      then (r, record s { net = net })
      else (ok wallet.default, record s { msgs = s.msgs ++ ms })

  -- Only a success empties the messages, whatever they are by then.
  abbrev pub emptied : Outcome E R → BatchSender N Msg → Outcome E R × BatchSender N Msg
  emptied (ok r) s = (ok r, record s { msgs = [] })
  emptied (err e) s = (err e, s)
  emptied panic s = (panic, s)

  -- `CosmosBatchSender::broadcast`
  unfoldable pub broadcast : Option String → List Msg → Exec (BatchSender N Msg) E R
  broadcast memo meanwhile s =
      let (r, net) = wallet.commit_tx_any s.msgs memo s.net in
      emptied r (record { msgs = s.msgs ++ meanwhile; net = net })
