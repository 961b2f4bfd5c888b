-- ===== src/Daemon/TxBuilder/Fees.antt =====
-- What a built transaction leaves in its builder, and how the next one is paid for.
use cw_orchestrator.Common.{ℕ, ◌≡◌, refl, ap, arith, some, ok, ◌>>=◌}
use cw_orchestrator.Daemon.TxBuilder.{
  TxBuilder, BaseAccount, Wallet, Session, fee_amount, gas_limit, value_or, build, Unsigned,
}

module _ {N Body Raw : Type 0} (wallet : Wallet N Body Raw) where
  -- The transaction that is signed for a builder with this fee and gas limit.
  abbrev pub priced : TxBuilder Body → ℕ → ℕ → BaseAccount → Unsigned Body
  priced b fee gas account = record {
    body = b.body;
    fee = fee;
    gas = gas;
    sequence = value_or b.sequence account.sequence;
    account_number = account.account_number;
  }

  -- What a builder looks like after a build that may have simulated.
  abbrev pub with_gas : TxBuilder Body → ℕ → TxBuilder Body
  with_gas b g = record b { gas_limit = some g }

  pub build-gas_limit :
      (s : Session N Body) (raw : Raw)
      → (build wallet s).0 ≡ ok raw
      → (g : ℕ) × ((build wallet s).1.builder ≡ with_gas s.builder g)
  unfolding build gas_limit
  build-gas_limit s raw done = (value_or (build wallet s).1.builder.gas_limit 0, ground arith)

  build-fixed :
      (s : Session N Body) (fee gas : ℕ)
      → s.builder.fee_amount ≡ some fee
      → s.builder.gas_limit ≡ some gas
      → build wallet s ≡ (
          let (r, n) = wallet.base_account s.net in
          (
            r >>= λ account. wallet.sign_tx (priced s.builder fee gas account),
            record s { net = n },
          ))
  unfolding build
  build-fixed s fee gas f g = ground (arith, f, g)

  -- If a build gives a transaction, the builder then has a gas limit and its body, fee and sequence as
  -- before. A build after `fee_amount` does not simulate: it asks for the account and signs the
  -- transaction with the new fee and that gas limit, whatever the network has become.
  pub build-after_fee_amount :
      (s : Session N Body) (raw : Raw)
      → (build wallet s).0 ≡ ok raw
      → (g : ℕ) × ((build wallet s).1.builder ≡ with_gas s.builder g)
        × ((fee : ℕ) (net : N)
            → (build wallet
                (record { builder = fee_amount (build wallet s).1.builder fee; net = net })).0
              ≡ ((wallet.base_account net).0 >>= λ account.
                  wallet.sign_tx (priced s.builder fee g account)))
  unfolding fee_amount
  build-after_fee_amount s raw done =
      let (g, kept) = build-gas_limit s raw done in
      (g, kept, λ fee net. rw kept (ap (λ x. x.0) (build-fixed (again g fee net) fee g refl refl)))
    where
      again : ℕ → ℕ → N → Session N Body
      again g fee net = record {
        builder = record (with_gas s.builder g) { fee_amount = some fee };
        net = net;
      }
