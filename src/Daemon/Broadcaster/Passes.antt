-- ===== src/Daemon/Broadcaster/Passes.antt =====
-- How a pass over the strategies of the broadcaster uses up their retries.
use cw_orchestrator.Common.{
  ℕ, ◌+◌, ◌-◌, ◌≤◌, ◌<◌, ◌≡◌, ◌⊎◌, refl, map_ok, Bool, true, false, Option, none, some, List, [],
  ◌∷◌, All, Outcome, ok, err, panic, arith, Bool-cases, Outcome-cases, inl, inr,
}
use cw_orchestrator.Common.Exec.{Exec}
use cw_orchestrator.Daemon.Error.{DaemonError}
use cw_orchestrator.Daemon.TxBuilder.{TxResponse, Session}
use cw_orchestrator.Daemon.Broadcaster.{
  BroadcastRetry, infinite, finite, Response, StrategyAction, RetryStrategy, judge, Pass, attempt,
  act, resend, cons_strategy, pass,
}

abbrev left : BroadcastRetry → ℕ → ℕ
left infinite n = 0
left (finite m) n = m - n

-- The retries that a strategy still has, and those of all strategies.
abbrev pub remaining : {Body : Type 0} → RetryStrategy Body → ℕ
remaining s = left s.max_retries s.current_retries

abbrev pub total : {Body : Type 0} → List (RetryStrategy Body) → ℕ
total [] = 0
total (s ∷ rest) = remaining s + total rest

abbrev pub IsFinite : BroadcastRetry → Type 0
IsFinite infinite = ⊥
IsFinite (finite m) = Unit

abbrev pub AllFinite : {Body : Type 0} → List (RetryStrategy Body) → Type 0
AllFinite = All (λ s. IsFinite s.max_retries)

module _ {Body : Type 0} (s : RetryStrategy Body) (r : Response) where
  max_retries-judge : (judge s r).0.max_retries ≡ s.max_retries
  unfolding judge
  max_retries-judge = ground arith

  pub judge-IsFinite : IsFinite s.max_retries → IsFinite (judge s r).0.max_retries
  judge-IsFinite h = rw max_retries-judge h

  -- A retry that is granted uses one up, and none is ever gained.
  pub remaining-judge :
      IsFinite s.max_retries
      → (remaining (judge s r).0 ≤ remaining s)
        × ((judge s r).1 ≡ true → remaining (judge s r).0 + 1 ≤ remaining s)
  unfolding judge
  remaining-judge h = ground arith

module _ {N Body : Type 0} (send : Exec (Session N Body) DaemonError TxResponse)
    (block_speed : Exec (Session N Body) DaemonError ℕ) where
  pub pass-nil :
      (r : Response) (retry : Bool) (st : Session N Body)
      → pass send block_speed [] r retry st
        ≡ (ok (record { strategies = []; response = r; retry = retry }), st)
  unfolding pass
  pass-nil r retry st = refl

  pub pass-skip :
      (s : RetryStrategy Body) (rest : List (RetryStrategy Body)) (r : Response) (retry : Bool)
      (st : Session N Body)
      → (judge s r).1 ≡ false
      → pass send block_speed (s ∷ rest) r retry st ≡ (
        map_ok
            (cons_strategy send block_speed (judge s r).0)
            (pass send block_speed rest r retry st).0,
        (pass send block_speed rest r retry st).1,
      )
  unfolding pass
  pass-skip s rest r retry st miss = ground arith

  pub pass-hit :
      (s : RetryStrategy Body) (rest : List (RetryStrategy Body)) (r r' : Response) (retry : Bool)
      (st : Session N Body)
      → (judge s r).1 ≡ true
      → (resend send block_speed (judge s r).0.action r st).0 ≡ ok r'
      → pass send block_speed (s ∷ rest) r retry st ≡ (
          let st' = (resend send block_speed (judge s r).0.action r st).1 in
          (
            map_ok
                (cons_strategy send block_speed (judge s r).0)
                (pass send block_speed rest r' true st').0,
            (pass send block_speed rest r' true st').1,
          ))
  unfolding pass
  pass-hit s rest r r' retry st hit sent = ground arith

  pass-err :
      (s : RetryStrategy Body) (rest : List (RetryStrategy Body)) (r : Response) (retry : Bool)
      (st : Session N Body) (e : DaemonError)
      → (judge s r).1 ≡ true
      → (resend send block_speed (judge s r).0.action r st).0 ≡ err e
      → pass send block_speed (s ∷ rest) r retry st
        ≡ (err e, (resend send block_speed (judge s r).0.action r st).1)
  unfolding pass
  pass-err s rest r retry st e hit failed = ground arith

  pass-panic :
      (s : RetryStrategy Body) (rest : List (RetryStrategy Body)) (r : Response) (retry : Bool)
      (st : Session N Body)
      → (judge s r).1 ≡ true
      → (resend send block_speed (judge s r).0.action r st).0 ≡ panic
      → pass send block_speed (s ∷ rest) r retry st
        ≡ (panic, (resend send block_speed (judge s r).0.action r st).1)
  unfolding pass
  pass-panic s rest r retry st hit failed = ground arith

module _ {N Body : Type 0} (send : Exec (Session N Body) DaemonError TxResponse)
    (block_speed : Exec (Session N Body) DaemonError ℕ) (count : N → ℕ)
    (send_counts : (s : Session N Body) → count (send s).1.net ≤ count s.net + 1)
    (speed_keeps : (s : Session N Body) → count (block_speed s).1.net ≤ count s.net) where
  pub count-attempt :
      (s : Session N Body) → count (attempt send block_speed s).1.net ≤ count s.net + 1
  unfolding attempt
  count-attempt s = ground (arith, send_counts s)

  count-act :
      (action : Option (StrategyAction Body)) (r : Response) (s : Session N Body)
      → count (act send block_speed action r s).1.net ≡ count s.net
  unfolding act
  count-act none r s = refl
  count-act (some action) r s = ground arith

  count-resend :
      (action : Option (StrategyAction Body)) (r : Response) (s : Session N Body)
      → count (resend send block_speed action r s).1.net ≤ count s.net + 1
  unfolding resend
  count-resend action r s =
      let s' = (act send block_speed action r s).1 in
      ground (arith, count-act action r s, speed_keeps s', count-attempt (block_speed s').1)

  -- What a pass leaves that ends with `n` sendings, begun after `before` of them.
  pub record Used (ss : List (RetryStrategy Body)) (retry : Bool) (before n : ℕ) (p : Pass Body)
      : Type 0 where
    pub finite_left : AllFinite p.strategies
    pub used : total p.strategies + n ≤ total ss + before
    pub shrinks : total p.strategies ≤ total ss
    pub falls : p.retry ≡ true → (retry ≡ true) ⊎ (total p.strategies < total ss)

  abbrev pub OnOk :
      List (RetryStrategy Body) → Bool → ℕ → ℕ → Outcome DaemonError (Pass Body) → Type 0
  OnOk ss retry before n (ok p) = Used ss retry before n p
  OnOk ss retry before n (err e) = Unit
  OnOk ss retry before n panic = Unit

  abbrev pub Spent :
      List (RetryStrategy Body)
      → Bool
      → ℕ
      → Outcome DaemonError (Pass Body) × Session N Body
      → Type 0
  Spent ss retry before result =
      (count result.1.net ≤ before + total ss) × OnOk ss retry before (count result.1.net) result.0

  Spent-cons :
      (s s' : RetryStrategy Body) (rest : List (RetryStrategy Body)) (retry retry' : Bool)
      (before before' : ℕ) (result : Outcome DaemonError (Pass Body)) (st : Session N Body)
      → IsFinite s'.max_retries
      → remaining s' ≤ remaining s
      → before' + remaining s' ≤ before + remaining s
      → (retry' ≡ true → (retry ≡ true) ⊎ (remaining s' < remaining s))
      → Spent rest retry' before' (result, st)
      → Spent (s ∷ rest) retry before (map_ok (cons_strategy send block_speed s') result, st)
  Spent-cons s s' rest retry retry' before before' (ok p) st fin less cost flag (within, spent) = (
    omega (arith, within, less, cost),
    record {
      finite_left = (fin, spent.finite_left);
      used = omega (arith, spent.used);
      shrinks = omega (arith, spent.shrinks);
      falls = λ again. elim (spent.falls again) [
        | inl h ↦ elim (flag h) [ inl k ↦ inl k | inr k ↦ inr (omega (arith, k, spent.shrinks)) ]
        | inr k ↦ inr (omega (arith, k, less))
      ];
    },
  )
  Spent-cons s s' rest retry retry' before before' (err x) st fin less cost flag (within, spent) =
      (omega (arith, within), tt)
  Spent-cons s s' rest retry retry' before before' panic st fin less cost flag (within, spent) =
      (omega (arith, within), tt)

  -- A pass over finite strategies.
  pub pass-Spent :
      (ss : List (RetryStrategy Body)) (r : Response) (retry : Bool) (st : Session N Body)
      → AllFinite ss
      → Spent ss retry (count st.net) (pass send block_speed ss r retry st)
  pass-Spent [] r retry st fin = rw (pass-nil send block_speed r retry st) (
    omega arith,
    record {
      finite_left = tt;
      used = omega arith;
      shrinks = omega arith;
      falls = λ again. inl again;
    },
  )
  pass-Spent (s ∷ rest) r retry st (fin, fins) =
      let s' = (judge s r).0 in
      let sent = resend send block_speed s'.action r st in
      let less = remaining-judge s r fin in
      let fin' = judge-IsFinite s r fin in
      let cost = count-resend s'.action r st in
      elim (Bool-cases (judge s r).1) [
        | inr miss ↦ rw (pass-skip send block_speed s rest r retry st miss) (
            Spent-cons s s' rest retry retry (count st.net) (count st.net)
              (pass send block_speed rest r retry st).0 (pass send block_speed rest r retry st).1
              fin' less.0 (omega (arith, less.0)) inl (pass-Spent rest r retry st fins))
        | inl hit ↦ elim (Outcome-cases sent.0) [
          | inl (r', done) ↦ rw (pass-hit send block_speed s rest r r' retry st hit done) (
              Spent-cons s s' rest retry true (count st.net) (count sent.1.net)
                (pass send block_speed rest r' true sent.1).0
                (pass send block_speed rest r' true sent.1).1 fin' less.0
                (omega (arith, less.1 hit, cost)) (λ _. inr (omega (arith, less.1 hit)))
                (pass-Spent rest r' true sent.1 fins))
          | inr (inl (e, failed)) ↦
              rw (pass-err send block_speed s rest r retry st e hit failed)
                (omega (arith, less.1 hit, cost), tt)
          | inr (inr panicked) ↦
              rw (pass-panic send block_speed s rest r retry st hit panicked)
                (omega (arith, less.1 hit, cost), tt)
        ]
      ]
