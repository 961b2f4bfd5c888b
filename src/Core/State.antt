-- ===== src/Core/State.antt =====
-- packages/cw-orch-core/src/environment/state.rs
-- The trait `StateInterface` as a record of operations on a state `S`, and what a client relies on.
-- A method that returns nothing in the source never gives `err` here; it may panic.
use cw_orchestrator.Common.{ℕ, String, ◌≡◌, Map, Outcome, ok, err, ◌==◌, if◌then◌else◌}
use cw_orchestrator.Core.Error.{CwEnvError, addr_not_in_store, code_id_not_in_store}

pub record StateInterface (S : Type 0) : Type 0 where
  pub get_address : S → String → Outcome CwEnvError String
  pub set_address : S → String → String → Outcome CwEnvError S
  pub remove_address : S → String → Outcome CwEnvError S
  pub get_code_id : S → String → Outcome CwEnvError ℕ
  pub set_code_id : S → String → ℕ → Outcome CwEnvError S
  pub remove_code_id : S → String → Outcome CwEnvError S
  pub get_all_addresses : S → Outcome CwEnvError (Map String)
  pub get_all_code_ids : S → Outcome CwEnvError (Map ℕ)

-- What a write gives back: the state goes on, it stays valid, and the two tables read as stated.
pub record Wrote {S : Type 0} (i : StateInterface S) (IsValid : S → Type 0)
    (r : Outcome CwEnvError S) (address : String → Outcome CwEnvError String)
    (code_id : String → Outcome CwEnvError ℕ) : Type 0 where
  pub next : S
  pub done : r ≡ ok next
  pub valid : IsValid next
  pub addresses : (j : String) → i.get_address next j ≡ address j
  pub code_ids : (j : String) → i.get_code_id next j ≡ code_id j

-- The contract of the writers, at the states that satisfy `IsValid`: a write is read back, and
-- every other key and the other table read as before.
pub record StateLaws {S : Type 0} (i : StateInterface S) (IsValid : S → Type 0) : Type 0 where
  pub address_set :
      (s : S) (k a : String)
      → IsValid s
      → Wrote i IsValid
          (i.set_address s k a)
          (λ j. if k == j then ok a else i.get_address s j)
          (λ j. i.get_code_id s j)
  pub code_id_set :
      (s : S) (k : String) (c : ℕ)
      → IsValid s
      → Wrote i IsValid
          (i.set_code_id s k c)
          (λ j. i.get_address s j)
          (λ j. if k == j then ok c else i.get_code_id s j)

-- The contract of the two removals: a removed key reads as missing.
pub record RemovalLaws {S : Type 0} (i : StateInterface S) (IsValid : S → Type 0) : Type 0 where
  pub address_removed :
      (s : S) (k : String)
      → IsValid s
      → Wrote i IsValid
          (i.remove_address s k)
          (λ j. if k == j then err (addr_not_in_store j) else i.get_address s j)
          (λ j. i.get_code_id s j)
  pub code_id_removed :
      (s : S) (k : String)
      → IsValid s
      → Wrote i IsValid
          (i.remove_code_id s k)
          (λ j. i.get_address s j)
          (λ j. if k == j then err (code_id_not_in_store j) else i.get_code_id s j)
