-- ===== src/Daemon/State/Interface.antt =====
-- `impl StateInterface for DaemonState`, in cw-orch-daemon/src/state.rs.
use cw_orchestrator.Common.{
  ℕ, String, Option, none, some, Outcome, ok, err, panic, ◌>>=◌, Map, map_err, unwrap, ok_or, List,
  [], ◌∷◌,
}
use cw_orchestrator.Common.Dict
use cw_orchestrator.Core.Error.{CwEnvError, addr_not_in_store, code_id_not_in_store, any_error}
use cw_orchestrator.Core.State.{StateInterface}
use cw_orchestrator.Daemon.Error.{DaemonError}
use cw_orchestrator.Daemon.Json.{Json}
use cw_orchestrator.Daemon.State.{DaemonState, World, get, set, remove}

module _ (j : Json) where
  -- `.ok().and_then(|v| v.get(id).cloned()).ok_or_else(…)`
  abbrev pub found : Outcome DaemonError j.Value → String → CwEnvError → Outcome CwEnvError j.Value
  found (ok v) id missing = ok_or (j.get v id) missing
  found (err e) id missing = err missing
  found panic id missing = panic

  -- `.unwrap()` of what a write gives
  abbrev pub unwrap_write : Outcome DaemonError (Unit {0}) × World j → Outcome CwEnvError (World j)
  unwrap_write (ok u, w) = ok w
  unwrap_write (err e, w) = panic
  unwrap_write (panic, w) = panic

  -- The loop of the two methods below: each value is read by `read`, or the loop panics.
  store_all :
      {A : Type 0}
      → (j.Value → Option A)
      → List (String × j.Value)
      → Map A
      → Outcome CwEnvError (Map A)
  store_all read [] store = ok store
  store_all read ((id, v) ∷ rest) store =
      unwrap (read v) >>= λ a. store_all read rest (Dict.insert store id a)

  abbrev or_default : Option (Map j.Value) → Map j.Value
  or_default none = Dict.empty
  or_default (some m) = m

  all_of :
      {A : Type 0}
      → (DaemonError → String)
      → (j.Value → Option A)
      → Outcome DaemonError j.Value
      → Outcome CwEnvError (Map A)
  unfolding store_all
  all_of message read table = map_err (λ e. any_error (message e)) table >>= λ v.
      store_all read (Dict.entries (or_default (j.as_object v))) Dict.empty

  module _ {Price : Type 0} where
    unfoldable pub set_address :
        DaemonState Price → World j → String → String → Outcome CwEnvError (World j)
    set_address d w contract_id address =
        unwrap_write (set j d d.deployment_id contract_id (j.string address) w)

    unfoldable pub remove_address :
        DaemonState Price → World j → String → Outcome CwEnvError (World j)
    remove_address d w contract_id = unwrap_write (remove j d d.deployment_id contract_id w)

    unfoldable pub set_code_id :
        DaemonState Price → World j → String → ℕ → Outcome CwEnvError (World j)
    set_code_id d w contract_id code_id =
        unwrap_write (set j d "code_ids" contract_id (j.number code_id) w)

    unfoldable pub remove_code_id :
        DaemonState Price → World j → String → Outcome CwEnvError (World j)
    remove_code_id d w contract_id = unwrap_write (remove j d "code_ids" contract_id w)

  module _ (io_error : String → String) (message : DaemonError → String) {Price : Type 0} where
    unfoldable pub get_address : DaemonState Price → World j → String → Outcome CwEnvError String
    get_address d w contract_id =
        found (get j io_error d d.deployment_id w) contract_id (addr_not_in_store contract_id)
        >>= λ v. unwrap (j.as_str v)

    unfoldable pub get_code_id : DaemonState Price → World j → String → Outcome CwEnvError ℕ
    get_code_id d w contract_id =
        found (get j io_error d "code_ids" w) contract_id (code_id_not_in_store contract_id)
        >>= λ v. unwrap (j.as_u64 v)

    unfoldable pub get_all_addresses : DaemonState Price → World j → Outcome CwEnvError (Map String)
    unfolding all_of
    get_all_addresses d w = all_of message j.as_str (get j io_error d d.deployment_id w)

    unfoldable pub get_all_code_ids : DaemonState Price → World j → Outcome CwEnvError (Map ℕ)
    unfolding all_of
    get_all_code_ids d w = all_of message j.as_u64 (get j io_error d "code_ids" w)

    abbrev pub daemon_state : DaemonState Price → StateInterface (World j)
    daemon_state d = record {
      get_address = get_address d;
      set_address = set_address d;
      remove_address = remove_address d;
      get_code_id = get_code_id d;
      set_code_id = set_code_id d;
      remove_code_id = remove_code_id d;
      get_all_addresses = get_all_addresses d;
      get_all_code_ids = get_all_code_ids d;
    }
