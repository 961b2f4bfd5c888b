-- ===== src/Clone/State.antt =====
-- packages/clone-testing/src/state.rs
-- The state of a clone: what was registered since, over the state of the daemon. The daemon's state is
-- any instance `daemon` of `StateInterface`, on a type `D`.
pub mod Laws
use cw_orchestrator.Common.{
  ℕ, String, Map, List, [], ◌∷◌, Outcome, ok, err, panic, ok_or, or_outcome, map_ok,
}
use cw_orchestrator.Common.Dict
use cw_orchestrator.Core.Error.{CwEnvError, addr_not_in_store, code_id_not_in_store}
use cw_orchestrator.Core.State.{StateInterface}

pub record MockState (D : Type 0) : Type 0 where
  pub code_ids : Map ℕ
  pub addresses : Map String
  pub daemon_state : D

-- `unwrap`
abbrev unwrapped : {E F A : Type 0} → Outcome E A → Outcome F A
unwrapped (ok a) = ok a
unwrapped (err e) = panic
unwrapped panic = panic

module _ {D : Type 0} where
  -- `MockState::new`, of what `DaemonState::new` gives for a read-only state.
  unfoldable pub new : {E F : Type 0} → Outcome E D → Outcome F (MockState D)
  new daemon_state =
      map_ok (λ d. record { code_ids = Dict.empty; addresses = Dict.empty; daemon_state = d })
        (unwrapped daemon_state)

  unfoldable pub set_address : MockState D → String → String → MockState D
  set_address s contract_id address = record {
    code_ids = s.code_ids;
    addresses = Dict.insert s.addresses contract_id address;
    daemon_state = s.daemon_state;
  }

  unfoldable pub remove_address : MockState D → String → MockState D
  remove_address s contract_id = record {
    code_ids = s.code_ids;
    addresses = Dict.remove s.addresses contract_id;
    daemon_state = s.daemon_state;
  }

  unfoldable pub set_code_id : MockState D → String → ℕ → MockState D
  set_code_id s contract_id code_id = record {
    code_ids = Dict.insert s.code_ids contract_id code_id;
    addresses = s.addresses;
    daemon_state = s.daemon_state;
  }

  unfoldable pub remove_code_id : MockState D → String → MockState D
  remove_code_id s contract_id = record {
    code_ids = Dict.remove s.code_ids contract_id;
    addresses = s.addresses;
    daemon_state = s.daemon_state;
  }

-- The entries of one table after those of another, collected: the later entry of a key stays. A key
-- stands at most once in each table, so `unique` only drops an entry that is collected again as it is.
insert_all : {A : Type 0} → Map A → List (String × A) → Map A
insert_all m [] = m
insert_all m ((k, a) ∷ rest) = insert_all (Dict.insert m k a) rest

-- `unwrap_or_default`
or_default : {A : Type 0} → Outcome CwEnvError (Map A) → Outcome CwEnvError (Map A)
or_default (ok m) = ok m
or_default (err e) = ok Dict.empty
or_default panic = panic

joined : {A : Type 0} → Map A → Outcome CwEnvError (Map A) → Outcome CwEnvError (Map A)
unfolding insert_all or_default
joined mock daemon =
    map_ok (λ m. insert_all (insert_all Dict.empty (Dict.entries mock)) (Dict.entries m))
      (or_default daemon)

module _ {D : Type 0} (daemon : StateInterface D) where
  unfoldable pub get_address : MockState D → String → Outcome CwEnvError String
  get_address s contract_id =
      or_outcome (ok_or (Dict.get s.addresses contract_id) (addr_not_in_store contract_id))
        (daemon.get_address s.daemon_state contract_id)

  unfoldable pub get_code_id : MockState D → String → Outcome CwEnvError ℕ
  get_code_id s contract_id =
      or_outcome (ok_or (Dict.get s.code_ids contract_id) (code_id_not_in_store contract_id))
        (daemon.get_code_id s.daemon_state contract_id)

  unfoldable pub get_all_addresses : MockState D → Outcome CwEnvError (Map String)
  unfolding joined
  get_all_addresses s = joined s.addresses (daemon.get_all_addresses s.daemon_state)

  unfoldable pub get_all_code_ids : MockState D → Outcome CwEnvError (Map ℕ)
  unfolding joined
  get_all_code_ids s = joined s.code_ids (daemon.get_all_code_ids s.daemon_state)

  abbrev pub clone_state : StateInterface (MockState D)
  clone_state = record {
    get_address = get_address;
    set_address = λ s k a. ok (set_address s k a);
    remove_address = λ s k. ok (remove_address s k);
    get_code_id = get_code_id;
    set_code_id = λ s k c. ok (set_code_id s k c);
    remove_code_id = λ s k. ok (remove_code_id s k);
    get_all_addresses = get_all_addresses;
    get_all_code_ids = get_all_code_ids;
  }
