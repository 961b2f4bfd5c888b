-- ===== src/Clone/State/Laws.antt =====
-- What the state of a clone promises, over any state of the daemon.
use cw_orchestrator.Common.{String, ◌≡◌, refl, arith, ◌==◌, if◌then◌else◌}
use cw_orchestrator.Common.Dict.{map_laws}
use cw_orchestrator.Core.State.{StateInterface, StateLaws}
use cw_orchestrator.Clone.State.{
  MockState, get_address, set_address, remove_address, get_code_id, set_code_id, clone_state,
}

module _ {D : Type 0} (daemon : StateInterface D) where
  abbrev pub IsAny : MockState D → Type 0
  IsAny s = Unit {0}

  -- Over any state of the daemon, every write of the state of a clone is read back under its key, every
  -- other key and the other table read as before, and no write fails.
  pub clone_state-StateLaws : StateLaws (clone_state daemon) IsAny
  unfolding get_address set_address get_code_id set_code_id
  clone_state-StateLaws = record {
    address_set = λ s k a _. record {
      next = set_address s k a;
      done = refl;
      valid = tt;
      addresses = λ j. simp map_laws (ground arith);
      code_ids = λ j. refl;
    };
    code_id_set = λ s k c _. record {
      next = set_code_id s k c;
      done = refl;
      valid = tt;
      addresses = λ j. refl;
      code_ids = λ j. simp map_laws (ground arith);
    };
  }

  -- Over any state of the daemon, a key that is removed from the state of a clone reads as the daemon has
  -- it; every other key reads as before.
  pub get_address-remove_address :
      (s : MockState D) (k j : String)
      → get_address daemon (remove_address s k) j
        ≡ (if k == j then daemon.get_address s.daemon_state j else get_address daemon s j)
  unfolding get_address remove_address
  get_address-remove_address s k j = simp map_laws (ground arith)
