-- ===== src/Daemon/Wallet/Balance.antt =====
-- What a sender knows of its balance once `assert_wallet_balance` of
-- cw-orch-daemon/src/senders/cosmos.rs gives nothing back.
use cw_orchestrator.Common.{
  ℕ, zero, suc, ◌≤◌, ◌≡◌, inl, inr, arith, String, Bool, true, false, some, List, Outcome, ok, err,
  leb, first, unwrap, unwrap-ok, Bool-cases,
}
use cw_orchestrator.Common.Exec.{Exec, >>=-eq-ok}
use cw_orchestrator.Common.Text.{contains}
use cw_orchestrator.Daemon.Error.{Coin, DaemonError}
use cw_orchestrator.Daemon.Wallet.{Network, assert_wallet_balance, missing, answered}

module _ {N Msg Body Tx : Type 0} (net : Network N Msg Body Tx) (fee : Coin) where
  -- The node answered with a balance of at least the fee.
  pub record IsCovered : Type 0 where
    pub asked : N
    pub balances : List Coin
    pub answer : (net.balance fee.denom asked).0 ≡ ok balances
    pub balance : Coin
    pub is_first : first balances ≡ some balance
    pub enough : fee.amount ≤ balance.amount

  leb-true : (a b : ℕ) → leb a b ≡ true → a ≤ b
  leb-true a b h = ground (arith, h)

  module _ (manual : Bool) where
    answered-IsCovered :
        (balance : Coin) (again : Exec N DaemonError Bool) (input : String) (n : N)
        → ((m : N) → (again m).0 ≡ ok true → IsCovered)
        → (answered net manual fee balance again input n).0 ≡ ok true
        → IsCovered
    unfolding assert_wallet_balance
    answered-IsCovered balance again input n ih h = elim (Bool-cases (contains input "y")) [
      | inl e ↦ ih n (rw e at h)
      | inr e ↦ absurd (refused (rw e at h))
    ]
      where
        refused : {e : DaemonError} → Path (Outcome DaemonError Bool) (err e) (ok true) → ⊥
        refused p = cc

    missing-IsCovered :
        (interactive : Bool) (balance : Coin) (again : Exec N DaemonError Bool) (n : N)
        → ((m : N) → (again m).0 ≡ ok true → IsCovered)
        → (missing net manual interactive fee balance again n).0 ≡ ok true
        → IsCovered
    unfolding assert_wallet_balance
    missing-IsCovered true balance again n ih h =
        let (input, read, q) =
          >>=-eq-ok net.read_line_lowercase (answered net manual fee balance again) n h in
        answered-IsCovered balance again input _ ih (rw q at h)
    missing-IsCovered false balance again n ih h = cc

    -- Where `assert_wallet_balance` succeeds within its tries, the node answered with a balance in the
    -- denomination of the fee that is at least the fee, however often the balance was too small before.
    pub assert_wallet_balance-IsCovered :
        (tries : ℕ) (n : N) → (assert_wallet_balance net manual tries fee n).0 ≡ ok true → IsCovered
    unfolding assert_wallet_balance
    assert_wallet_balance-IsCovered zero n h = cc
    assert_wallet_balance-IsCovered (suc tries) n h =
        let (balances, answer, q) = >>=-eq-ok (net.balance fee.denom) _ n h in
        let (balance, known, q₁) = >>=-eq-ok (λ m. (unwrap (first balances), m)) _ _ (rw q at h) in
        elim (Bool-cases (leb fee.amount balance.amount)) [
          | inl e ↦ record {
            asked = n;
            balances = balances;
            answer = answer;
            balance = balance;
            is_first = unwrap-ok _ balance known;
            enough = leb-true fee.amount balance.amount e;
          }
          | inr e ↦
              missing-IsCovered manual balance _ _ (assert_wallet_balance-IsCovered tries)
                (rw (q, q₁, e) at h)
        ]
