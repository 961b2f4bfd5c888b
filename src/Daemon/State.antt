-- ===== src/Daemon/State.antt =====
-- cw-orch-daemon/src/state.rs
-- The world is what a process shares: the files, `LOCKED_FILES`, and the states that the `Arc`s
-- lead to, each with the number of its owners. A handle of full access holds the number of its
-- state, so clones of a handle lead to the same one.
pub mod Interface
pub mod Writes
pub mod Laws
pub mod Lifecycle
use Prim.Native.String.{◌++◌}
use mathlib.Core.Option
use cw_orchestrator.Common.{
  ℕ, suc, ◌+◌, String, Bool, true, false, Option, none, some, Outcome, ok, err, panic, ◌>>=◌,
  if◌then◌else◌, Map, map_err, map_ok, unwrap, eqb, or_outcome, List, [], ◌∷◌, ok_or,
}
use cw_orchestrator.Common.Dict
use cw_orchestrator.Common.Exec.{Exec, lift, throw, puts}
use cw_orchestrator.Core.ChainInfo.{ChainInfo, is_local}
use cw_orchestrator.Core.Error.{CwEnvError, addr_not_in_store, code_id_not_in_store, any_error}
use cw_orchestrator.Core.State.{StateInterface}
use cw_orchestrator.Daemon.Error.{DaemonError, state_read_only, state_already_locked}
use cw_orchestrator.Daemon.Json.{Json, index, assign_in}
use cw_orchestrator.Daemon.Json.Locked
use cw_orchestrator.Daemon.Json.Locked.{JsonLockedState}

pub data DaemonStateFile : Type 0 where
  read_only : String → DaemonStateFile
  full_access : ℕ → DaemonStateFile

pub record DaemonState (Price : Type 0) : Type 0 where
  pub json_state : DaemonStateFile
  pub deployment_id : String
  pub chain_data : ChainInfo Price
  pub write_on_change : Bool

module _ (j : Json) where
  pub record Owned : Type 0 where
    pub locked : JsonLockedState j
    pub owners : ℕ

  pub record World : Type 0 where
    pub files : Map j.Text
    pub locked_files : Map (Unit {0})
    pub arcs : ℕ → Option Owned
    pub next : ℕ

  abbrev pub put_arc : World → ℕ → Option Owned → World
  put_arc w i o = record w { arcs = λ k. if eqb i k then o else w.arcs k }

  abbrev locked_of : Option Owned → Outcome DaemonError (JsonLockedState j)
  locked_of none = panic
  locked_of (some o) = ok o.locked

  -- `json_file_state.lock().unwrap()`, read
  abbrev pub lock : World → ℕ → Outcome DaemonError (JsonLockedState j)
  lock w i = locked_of (w.arcs i)

  abbrev owners_of : Option Owned → ℕ
  owners_of none = 0
  owners_of (some o) = o.owners

  abbrev pub put_locked : World → ℕ → JsonLockedState j → World
  put_locked w i l = put_arc w i (some (record { locked = l; owners = owners_of (w.arcs i) }))

  -- A write through the lock, and the file's if the handle writes on every change.
  abbrev pub commit : Bool → World → ℕ → JsonLockedState j → World
  commit write_on_change w i l =
      let w' = put_locked w i l in
      let w'' = record w' { files = Locked.force_write j l w.files } in
      if write_on_change then w'' else w'

  force_write_file : DaemonStateFile → Exec World DaemonError Unit
  force_write_file (read_only path) = throw (state_read_only path)
  force_write_file (full_access i) =
      puts (λ w. lock w i >>= λ l. ok (record w { files = Locked.force_write j l w.files }))

  module _ {Price : Type 0} where
    change_chain :
        DaemonStateFile
        → DaemonState Price
        → (j.Value → Outcome DaemonError j.Value)
        → Exec World DaemonError Unit
    change_chain (read_only path) d change = throw (state_read_only path)
    change_chain (full_access i) d change = puts (λ w. lock w i >>= λ l.
        Locked.get_mut j l d.chain_data.network_info.chain_name d.chain_data.chain_id change
        >>= λ l'. ok (commit d.write_on_change w i l'))

    -- `DaemonState::set`, of a value that is JSON already
    unfoldable pub set : DaemonState Price → String → String → j.Value → Exec World DaemonError Unit
    unfolding change_chain
    set d key contract_id value =
        change_chain d.json_state d (λ v. assign_in j v key contract_id value)

    -- `DaemonState::remove`
    unfoldable pub remove : DaemonState Price → String → String → Exec World DaemonError Unit
    unfolding change_chain
    remove d key contract_id =
        change_chain d.json_state d (λ v. assign_in j v key contract_id j.null)

    -- `DaemonState::force_write`
    unfoldable pub force_write : DaemonState Price → Exec World DaemonError Unit
    unfolding force_write_file
    force_write d = force_write_file d.json_state

    -- `DaemonState::flush`
    unfoldable pub flush : DaemonState Price → Exec World DaemonError Unit
    unfolding change_chain
    flush d =
        if is_local d.chain_data.kind
        then change_chain d.json_state d (λ v. ok j.empty_object)
        else lift panic

  -- What the operating system says of a file that it does not open.
  module _ (io_error : String → String) where
    get_json : DaemonStateFile → String → String → World → Outcome DaemonError j.Value
    get_json (read_only path) network_id chain_id w =
        Locked.read j io_error w.files path >>= λ v. ok (index j (index j v network_id) chain_id)
    get_json (full_access i) network_id chain_id w =
        lock w i >>= λ l. ok (Locked.get j l network_id chain_id)

    -- `DaemonState::get`
    unfoldable pub get :
        {Price : Type 0} → DaemonState Price → String → World → Outcome DaemonError j.Value
    unfolding get_json
    get d key w =
        get_json d.json_state d.chain_data.network_info.chain_name d.chain_data.chain_id w >>= λ v.
        ok (index j v key)
