-- ===== src/Mock/State/Laws.antt =====
-- `MockState` meets the contract of `StateInterface`, removals included, at every state.
use cw_orchestrator.Common.{refl, arith}
use cw_orchestrator.Common.Dict.{map_laws}
use cw_orchestrator.Core.State.{StateLaws, RemovalLaws}
use cw_orchestrator.Mock.State.{
  MockState, get_address, set_address, remove_address, get_code_id, set_code_id, remove_code_id,
  mock_state,
}

abbrev pub IsAny : MockState → Type 0
IsAny s = Unit {0}

-- Every write of the mock state is read back under its key, every other key and the other table read
-- as before, and no write fails.
pub mock_state-StateLaws : StateLaws mock_state IsAny
unfolding get_address set_address get_code_id set_code_id
mock_state-StateLaws = record {
  address_set = λ s k a _. record {
    next = set_address s k a;
    done = refl;
    valid = tt;
    addresses = λ j. simp map_laws (ground arith);
    code_ids = λ j. refl;
  };
  code_id_set = λ s k c _. record {
    next = set_code_id s k c;
    done = refl;
    valid = tt;
    addresses = λ j. refl;
    code_ids = λ j. simp map_laws (ground arith);
  };
}

-- A removed key of the mock state reads as missing, and every other key and the other table read as
-- before.
pub mock_state-RemovalLaws : RemovalLaws mock_state IsAny
unfolding get_address remove_address get_code_id remove_code_id
mock_state-RemovalLaws = record {
  address_removed = λ s k _. record {
    next = remove_address s k;
    done = refl;
    valid = tt;
    addresses = λ j. simp map_laws (ground arith);
    code_ids = λ j. refl;
  };
  code_id_removed = λ s k _. record {
    next = remove_code_id s k;
    done = refl;
    valid = tt;
    addresses = λ j. refl;
    code_ids = λ j. simp map_laws (ground arith);
  };
}
