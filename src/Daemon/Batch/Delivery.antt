-- ===== src/Daemon/Batch/Delivery.antt =====
-- Which of the queued messages a batch sender hands to its wallet, in
-- cw-orch-daemon/src/senders/cosmos_batch.rs.
use cw_orchestrator.Common.{
  ◌≡◌, refl, sym, ap, ◌∙◌, arith, String, Option, true, false, List, [], ◌∷◌, ◌++◌, Outcome, ok,
  err, panic, Bool, append_assoc, append-nil, if◌then◌else◌,
}
use cw_orchestrator.Daemon.Batch.{
  BatchSender, BatchWallet, broadcast_immediately, commit_tx_any, broadcast, emptied,
}

-- What one task does with a sender that no other task uses.
pub data Act (Msg : Type 0) : Type 0 where
  commit : List Msg → Option String → Act Msg
  send : Option String → Act Msg

-- The messages of some batches, each with its memo.
abbrev pub messages : {Msg : Type 0} → List (List Msg × Option String) → List Msg
messages [] = []
messages (b ∷ batches) = b.0 ++ messages batches

messages-append :
    {Msg : Type 0} (xs ys : List (List Msg × Option String))
    → messages (xs ++ ys) ≡ messages xs ++ messages ys
messages-append [] ys = refl
messages-append (b ∷ xs) ys =
    ap (λ l. b.0 ++ l) (messages-append xs ys) ∙ sym (append_assoc b.0 (messages xs) (messages ys))

module _ {N Msg E R : Type 0} (wallet : BatchWallet N Msg E R) where
  abbrev pub act : Act Msg → BatchSender N Msg → BatchSender N Msg
  act (commit ms memo) s = (commit_tx_any wallet ms memo s).1
  act (send memo) s = (broadcast wallet memo [] s).1

  -- The acts in order; an act that fails ends none of the later ones.
  abbrev pub run : List (Act Msg) → BatchSender N Msg → BatchSender N Msg
  run [] s = s
  run (a ∷ acts) s = run acts (act a s)

  -- The messages that are committed and not sent at once.
  abbrev pub queued : List (Act Msg) → List Msg
  queued [] = []
  queued (commit ms memo ∷ acts) =
      (if broadcast_immediately wallet ms then [] else ms) ++ queued acts
  queued (send memo ∷ acts) = queued acts

  abbrev pub if_sent : Outcome E R → List Msg × Option String → List (List Msg × Option String)
  if_sent (ok r) b = b ∷ []
  if_sent (err e) b = []
  if_sent panic b = []

  -- The batches whose broadcast succeeded.
  abbrev pub sent_batches : List (Act Msg) → BatchSender N Msg → List (List Msg × Option String)
  sent_batches [] s = []
  sent_batches (commit ms memo ∷ acts) s = sent_batches acts (act (commit ms memo) s)
  sent_batches (send memo ∷ acts) s =
      if_sent (broadcast wallet memo [] s).0 (s.msgs, memo) ++ sent_batches acts (act (send memo) s)

  act-commit :
      (ms : List Msg) (memo : Option String) (s : BatchSender N Msg)
      → (act (commit ms memo) s).msgs
        ≡ s.msgs ++ (if broadcast_immediately wallet ms then [] else ms)
  unfolding commit_tx_any
  act-commit ms memo s = on_test (broadcast_immediately wallet ms)
    where
      on_test :
          (at_once : Bool)
          → (if◌then◌else◌ {A = Outcome E R × BatchSender N Msg} at_once
              (
                (wallet.commit_tx_any ms memo s.net).0,
                record s { net = (wallet.commit_tx_any ms memo s.net).1 },
              )
              (ok wallet.default, record s { msgs = s.msgs ++ ms })).1.msgs
            ≡ s.msgs ++ (if at_once then [] else ms)
      on_test true = sym (append-nil s.msgs)
      on_test false = refl

  act-send :
      (memo : Option String) (s : BatchSender N Msg)
      → messages (if_sent (broadcast wallet memo [] s).0 (s.msgs, memo)) ++ (act (send memo) s).msgs
        ≡ s.msgs
  unfolding broadcast
  act-send memo s =
      split (wallet.commit_tx_any s.msgs memo s.net).0 (wallet.commit_tx_any s.msgs memo s.net).1
    where
      split :
          (r : Outcome E R) (n : N)
          → messages (
                if_sent
                  (emptied wallet r (record { msgs = s.msgs ++ []; net = n })).0
                  (s.msgs, memo))
              ++ (emptied wallet r (record { msgs = s.msgs ++ []; net = n })).1.msgs
            ≡ s.msgs
      split (ok r) n = append-nil (s.msgs ++ []) ∙ append-nil s.msgs
      split (err e) n = append-nil s.msgs
      split panic n = append-nil s.msgs

  -- The messages of the batches whose broadcast succeeded, followed by those that still wait, are those
  -- that waited at first, followed by those that were queued.
  pub sent_batches-run :
      (acts : List (Act Msg)) (s : BatchSender N Msg)
      → messages (sent_batches acts s) ++ (run acts s).msgs ≡ s.msgs ++ queued acts
  sent_batches-run [] s = sym (append-nil s.msgs)
  sent_batches-run (commit ms memo ∷ acts) s =
      sent_batches-run acts (act (commit ms memo) s)
      ∙ ap (λ l. l ++ queued acts) (act-commit ms memo s)
      ∙ append_assoc s.msgs (if broadcast_immediately wallet ms then [] else ms) (queued acts)
  sent_batches-run (send memo ∷ acts) s =
      let s' = act (send memo) s in
      let now = if_sent (broadcast wallet memo [] s).0 (s.msgs, memo) in
      let later = sent_batches acts s' in
      ap (λ l. l ++ (run acts s').msgs) (messages-append now later)
      ∙ append_assoc (messages now) (messages later) (run acts s').msgs
      ∙ ap (λ l. messages now ++ l) (sent_batches-run acts s')
      ∙ sym (append_assoc (messages now) s'.msgs (queued acts))
      ∙ ap (λ l. l ++ queued acts) (act-send memo s)

  module _ (taken : N → List Msg)
      (takes : (ms : List Msg) (memo : Option String) (n : N) (r : R)
        → (wallet.commit_tx_any ms memo n).0 ≡ ok r
        → taken (wallet.commit_tx_any ms memo n).1 ≡ taken n ++ ms) where
    succeeded :
        (memo : Option String) (meanwhile : List Msg) (s : BatchSender N Msg) (r : R)
        → (wallet.commit_tx_any s.msgs memo s.net).0 ≡ ok r
        → broadcast wallet memo meanwhile s
          ≡ (ok r, record { msgs = []; net = (wallet.commit_tx_any s.msgs memo s.net).1 })
    unfolding broadcast
    succeeded memo meanwhile s r sent = rw sent refl

    committed :
        (memo : Option String) (meanwhile : List Msg) (s : BatchSender N Msg) (r : R)
        → (broadcast wallet memo meanwhile s).0 ≡ ok r
        → (wallet.commit_tx_any s.msgs memo s.net).0 ≡ ok r
    unfolding broadcast
    committed memo meanwhile s r done = ground arith

    -- If the network takes the messages of a transaction that succeeds, a broadcast that succeeds while
    -- other tasks queue messages leaves the network with the messages that were queued before it, and
    -- nothing waits any more: those that were queued meanwhile are lost.
    pub broadcast-drops :
        (memo : Option String) (meanwhile : List Msg) (s : BatchSender N Msg) (r : R)
        → (broadcast wallet memo meanwhile s).0 ≡ ok r
        → ((broadcast wallet memo meanwhile s).1.msgs ≡ [])
          × (taken (broadcast wallet memo meanwhile s).1.net ≡ taken s.net ++ s.msgs)
    broadcast-drops memo meanwhile s r done =
        let sent = committed memo meanwhile s r done in
        rw (succeeded memo meanwhile s r sent) (refl, takes s.msgs memo s.net r sent)
