-- ===== src/Daemon/Broadcaster/Termination.antt =====
-- When the loop of the broadcaster ends, and how many transactions it sends.
use cw_orchestrator.Common.{
  ℕ, zero, suc, ◌+◌, ◌≤◌, ◌<◌, ◌≡◌, ◌≢◌, refl, true, false, Option, none, List, [], ◌∷◌, All,
  Outcome, ok, err, panic, arith, if◌then◌else◌, Bool-cases, Outcome-cases, inl, inr,
}
use cw_orchestrator.Common.Exec.{Exec, lift, follow}
use cw_orchestrator.Daemon.Error.{DaemonError}
use cw_orchestrator.Daemon.TxBuilder.{TxResponse, Session, Wallet, on_net, build}
use cw_orchestrator.Daemon.Broadcaster.{
  infinite, Response, RetryStrategy, can_retry, judge, Pass, attempt, act, resend, pass, rounds,
  broadcast, finish, strategy_condition_met, broadcast_helper,
}
use cw_orchestrator.Daemon.Broadcaster.Passes.{
  total, AllFinite, Spent, pass-Spent, count-attempt, pass-nil, pass-skip, pass-hit,
}

module _ {N Body : Type 0} (send : Exec (Session N Body) DaemonError TxResponse)
    (block_speed : Exec (Session N Body) DaemonError ℕ) where
  module _ (count : N → ℕ)
      (send_counts : (s : Session N Body) → count (send s).1.net ≤ count s.net + 1)
      (speed_keeps : (s : Session N Body) → count (block_speed s).1.net ≤ count s.net) where
    abbrev Ends : ℕ → ℕ → Outcome DaemonError (Option TxResponse) × Session N Body → Type 0
    Ends before left result = (result.0 ≢ ok none) × (count result.1.net ≤ before + left)

    finish-some : (r : Response) → finish send block_speed r ≢ ok none
    finish-some (ok r) h = cc
    finish-some (err e) h = cc
    finish-some panic h = cc

    -- The end of a round, over the rounds that may follow it.
    abbrev then_rounds :
        (List (RetryStrategy Body)
          → Response
          → Exec (Session N Body) DaemonError (Option TxResponse))
        → Pass Body
        → Exec (Session N Body) DaemonError (Option TxResponse)
    then_rounds more p =
        let again = more p.strategies p.response in
        if p.retry then again else lift (finish send block_speed p.response)

    round-Ends :
        (fuel : ℕ)
        (more : List (RetryStrategy Body)
          → Response
          → Exec (Session N Body) DaemonError (Option TxResponse))
        (ss : List (RetryStrategy Body)) (before : ℕ) (result : Outcome DaemonError (Pass Body))
        (st : Session N Body)
        → ((qs : List (RetryStrategy Body)) (r : Response) (s : Session N Body)
            → AllFinite qs
            → total qs < fuel
            → Ends (count s.net) (total qs) (more qs r s))
        → total ss < fuel + 1
        → Spent send block_speed count send_counts speed_keeps ss false before (result, st)
        → Ends before (total ss) (follow result (then_rounds more) st)
    round-Ends fuel more ss before (ok p) st ih enough (within, spent) = elim (Bool-cases p.retry) [
      | inr over ↦ rw over (finish-some p.response, within)
      | inl again ↦ elim (spent.falls again) [
        | inl h ↦ cc
        | inr fewer ↦
            let ends =
              ih p.strategies p.response st spent.finite_left (omega (arith, fewer, enough)) in
            rw again (ends.0, omega (arith, ends.1, spent.used))
      ]
    ]
    round-Ends fuel more ss before (err e) st ih enough spent = (λ h. cc, spent.0)
    round-Ends fuel more ss before panic st ih enough spent = (λ h. cc, spent.0)

    rounds-Ends :
        (fuel : ℕ) (ss : List (RetryStrategy Body)) (r : Response) (st : Session N Body)
        → AllFinite ss
        → total ss < fuel
        → Ends (count st.net) (total ss) (rounds send block_speed fuel ss r st)
    unfolding rounds
    rounds-Ends zero ss r st fin enough = absurd (omega (arith, enough))
    rounds-Ends (suc fuel) ss r st fin enough =
        let p = pass send block_speed ss r false st in
        round-Ends fuel (rounds send block_speed fuel) ss (count st.net) p.0 p.1 (rounds-Ends fuel)
          (omega (arith, enough))
          (pass-Spent send block_speed count send_counts speed_keeps ss r false st fin)

    broadcast-Ends :
        (fuel : ℕ) (ss : List (RetryStrategy Body)) (st : Session N Body)
        → AllFinite ss
        → total ss < fuel
        → Ends (count st.net) (1 + total ss) (broadcast send block_speed fuel ss st)
    unfolding broadcast
    broadcast-Ends fuel ss st fin enough =
        let sent = attempt send block_speed st in
        let cost = count-attempt send block_speed count send_counts speed_keeps st in
        elim (Outcome-cases sent.0) [
          | inl (r, done) ↦
              let ends = rounds-Ends fuel ss r sent.1 fin enough in
              rw done (ends.0, omega (arith, ends.1, cost))
          | inr (inl (e, failed)) ↦ rw failed (λ h. cc, omega (arith, cost))
          | inr (inr panicked) ↦ rw panicked (λ h. cc, omega (arith, cost))
        ]

  -- If the retries of every strategy are limited, more rounds than there are retries left are
  -- enough: the broadcaster ends with a response, an error or a panic, whatever the network does.
  pub broadcast-returns :
      (fuel : ℕ) (ss : List (RetryStrategy Body)) (st : Session N Body)
      → AllFinite ss
      → total ss < fuel
      → (broadcast send block_speed fuel ss st).0 ≢ ok none
  broadcast-returns fuel ss st fin enough =
      (broadcast-Ends (λ n. 0) (λ s. omega arith) (λ s. omega arith) fuel ss st fin enough).0

  judge-unmet :
      (s : RetryStrategy Body) (r : Response)
      → strategy_condition_met s r ≡ false
      → judge s r ≡ (s, false)
  unfolding judge strategy_condition_met
  judge-unmet s r miss = ground arith

  pass-unmet :
      (ss : List (RetryStrategy Body)) (r : Response) (st : Session N Body)
      → All (λ s. strategy_condition_met s r ≡ false) ss
      → pass send block_speed ss r false st
        ≡ (ok (record { strategies = ss; response = r; retry = false }), st)
  pass-unmet [] r st unmet = pass-nil send block_speed r false st
  pass-unmet (s ∷ rest) r st (miss, misses) =
      let skip = pass-skip send block_speed s rest r false st (rw (judge-unmet s r miss) refl) in
      rw (skip, judge-unmet s r miss, pass-unmet rest r st misses) refl

  -- If the first sending ends with a response, which may be its error, and no strategy's condition
  -- holds of it, one round is enough: the broadcaster ends with it, in the state that the sending
  -- left.
  pub broadcast-unmet :
      (fuel : ℕ) (ss : List (RetryStrategy Body)) (st : Session N Body) (r : Response)
      → (attempt send block_speed st).0 ≡ ok r
      → All (λ s. strategy_condition_met s r ≡ false) ss
      → broadcast send block_speed (suc fuel) ss st
        ≡ (finish send block_speed r, (attempt send block_speed st).1)
  unfolding broadcast rounds
  broadcast-unmet fuel ss st r first unmet =
      rw (first, pass-unmet ss r (attempt send block_speed st).1 unmet) refl

  module _ (s : RetryStrategy Body) (r : Response) (unlimited : s.max_retries ≡ infinite)
      (no_action : s.action ≡ none) (met : strategy_condition_met s r ≡ true)
      (same : (st : Session N Body) → (attempt send block_speed st).0 ≡ ok r)
      (speed : (st : Session N Body) → (n : ℕ) × ((block_speed st).0 ≡ ok n)) where
    judge-unlimited : judge s r ≡ (s, true)
    unfolding judge can_retry
    judge-unlimited = rw (met, unlimited) refl

    resend-unlimited : (st : Session N Body) → (resend send block_speed none r st).0 ≡ ok r
    unfolding resend act
    resend-unlimited st = let (n, done) = speed st in rw (done, same (block_speed st).1) refl

    pass-unlimited :
        (st : Session N Body)
        → (pass send block_speed (s ∷ []) r false st).0
          ≡ ok (record { strategies = s ∷ []; response = r; retry = true })
    pass-unlimited st =
        let hit : (judge s r).1 ≡ true = rw judge-unlimited refl in
        let sent : (resend send block_speed (judge s r).0.action r st).0 ≡ ok r =
          rw (judge-unlimited, no_action, resend-unlimited st) refl in
        let st' = (resend send block_speed (judge s r).0.action r st).1 in
        rw
          (
            pass-hit send block_speed s [] r r false st hit sent,
            pass-nil send block_speed r true st',
          )
          (rw judge-unlimited refl)

    rounds-unlimited :
        (fuel : ℕ) (st : Session N Body) → (rounds send block_speed fuel (s ∷ []) r st).0 ≡ ok none
    unfolding rounds
    rounds-unlimited zero st = refl
    rounds-unlimited (suc fuel) st =
        rw (pass-unlimited st) (rounds-unlimited fuel (pass send block_speed (s ∷ []) r false st).1)

    -- If a strategy has no limit and no action, its condition holds of the response that every sending
    -- gives, and the block speed can always be had, then no number of rounds is enough for a broadcaster
    -- with that strategy alone to end.
    pub broadcast-unlimited :
        (fuel : ℕ) (st : Session N Body) → (broadcast send block_speed fuel (s ∷ []) st).0 ≡ ok none
    unfolding broadcast
    broadcast-unlimited fuel st =
        rw (same st) (rounds-unlimited fuel (attempt send block_speed st).1)

-- The network counts the transactions it is asked to take.
module _ {N Body Raw : Type 0} (wallet : Wallet N Body Raw) (count : N → ℕ)
    (account_keeps : (n : N) → count (wallet.base_account n).1 ≡ count n)
    (gas_keeps : (body : Body) (seq number : ℕ) (n : N)
      → count (wallet.calculate_gas body seq number n).1 ≡ count n)
    (speed_keeps : (n : N) → count (wallet.average_block_speed n).1 ≡ count n)
    (tx_counts : (raw : Raw) (n : N) → count (wallet.broadcast_tx raw n).1 ≡ count n + 1) where
  build-keeps : (s : Session N Body) → count (build wallet s).1.net ≡ count s.net
  unfolding build
  build-keeps s = grind arith

  helper-counts : (s : Session N Body) → count (broadcast_helper wallet s).1.net ≤ count s.net + 1
  unfolding broadcast_helper
  helper-counts s =
      let s' = (build wallet s).1 in
      elim (Outcome-cases (build wallet s).0) [
        | inl (tx, done) ↦ rw done (grind (arith, build-keeps s, tx_counts tx s'.net))
        | inr (inl (e, failed)) ↦ rw failed (omega (arith, build-keeps s))
        | inr (inr panicked) ↦ rw panicked (omega (arith, build-keeps s))
      ]

  -- If only `broadcast_tx` adds to the transactions that the network is asked to take, one each
  -- time, the retries of every strategy are limited, and the rounds are more than the retries left,
  -- the broadcaster sends at most one transaction more than there are retries left.
  pub broadcast-bounded :
      (fuel : ℕ) (ss : List (RetryStrategy Body)) (s : Session N Body)
      → AllFinite ss
      → total ss < fuel
      → count
          (broadcast (broadcast_helper wallet) (on_net wallet.average_block_speed) fuel ss s).1.net
        ≤ count s.net + (1 + total ss)
  broadcast-bounded fuel ss s fin enough =
      (broadcast-Ends (broadcast_helper wallet) (on_net wallet.average_block_speed) count
        helper-counts (λ s'. omega (arith, speed_keeps s'.net)) fuel ss s fin enough).1
