-- ===== src/Daemon/State/Lifecycle.antt =====
-- How handles come and go: `DaemonState::new`, `clone` and `drop`, in cw-orch-daemon/src/state.rs.
pub mod Exclusive
pub mod Sharing
use Prim.Native.String.{◌++◌}
use cw_orchestrator.Common.{
  ℕ, suc, ◌+◌, ◌-◌, String, Bool, true, false, Option, none, some, Outcome, ok, err, panic,
  if◌then◌else◌, if_none, unwrap, leb,
}
use cw_orchestrator.Common.Dict
use cw_orchestrator.Common.Exec.{Exec, lift, throw, pure, ◌>>=◌, ◌>>◌, follow}
use cw_orchestrator.Core.ChainInfo.{ChainInfo, ChainKind, is_local}
use cw_orchestrator.Daemon.Error.{DaemonError, state_already_locked}
use cw_orchestrator.Daemon.Json.{Json}
use cw_orchestrator.Daemon.Json.Locked
use cw_orchestrator.Daemon.Json.Locked.{JsonLockedState}
use cw_orchestrator.Daemon.State.{
  DaemonStateFile, read_only, full_access, DaemonState, Owned, World, put_arc,
}

module _ (j : Json) where
  abbrev pub on_files :
      {A : Type 0} → Exec (Locked.Files j) DaemonError A → Exec (World j) DaemonError A
  on_files m w = let (r, files) = m w.files in (r, record w { files = files })

  abbrev pub insert_locked : String → Exec (World j) DaemonError Unit
  insert_locked path w = (ok tt, record w { locked_files = Dict.insert w.locked_files path tt })

  -- `Arc::new(Mutex::new(…))`, after the file is written if every change is.
  abbrev pub share : Bool → JsonLockedState j → Exec (World j) DaemonError DaemonStateFile
  share write_on_change l w = (
    ok (full_access w.next),
    record w {
      files = if write_on_change then Locked.force_write j l w.files else w.files;
      arcs = (put_arc j w w.next (some (record { locked = l; owners = 1 }))).arcs;
      next = w.next + 1;
    },
  )

  -- `lockable` is what the operating system says to a lock; the other two are `Path::file_stem` and
  -- `Path::parent`, with `to_str`.
  module _ (lockable : String → Bool) (file_stem parent : String → Option String) where
    abbrev local_file : Option String → Option String → Outcome DaemonError String
    local_file none folder = panic
    local_file (some name) none = panic
    local_file (some name) (some folder) = ok (folder ++ ("/" ++ (name ++ "_local.json")))

    -- The file of a local chain is another one.
    abbrev pub path_for : ChainKind → String → Outcome DaemonError String
    path_for kind json_file_path =
        if is_local kind
        then local_file (file_stem json_file_path) (parent json_file_path)
        else ok json_file_path

    -- The state file under `LOCKED_FILES`, locked, prepared and shared.
    open_locked :
        String → String → String → String → Bool → Exec (World j) DaemonError DaemonStateFile
    open_locked path chain_id network_id deployment_id write_on_change = do
      l ← on_files (Locked.new j (lockable path) path)
      insert_locked path
      l' ← lift (Locked.prepare j l chain_id network_id deployment_id)
      share write_on_change l'

    unless_locked :
        String
        → Exec (World j) DaemonError DaemonStateFile
        → Exec (World j) DaemonError DaemonStateFile
    unless_locked path opening w =
        let opened = opening w in
        if_none (Dict.get w.locked_files path) opened (err (state_already_locked path), w)

    module _ {Price : Type 0} where
      -- `DaemonState::new`
      unfoldable pub new :
          String
          → ChainInfo Price
          → String
          → Bool
          → Bool
          → Exec (World j) DaemonError (DaemonState Price)
      unfolding unless_locked open_locked
      new json_file_path chain_data deployment_id is_read_only write_on_change = do
        path ← lift (path_for chain_data.kind json_file_path)
        file ←
            if is_read_only
            then pure (read_only path)
            else unless_locked path (
                open_locked path chain_data.chain_id chain_data.network_info.chain_name
                  deployment_id write_on_change)
        pure (record {
          json_state = file;
          deployment_id = deployment_id;
          chain_data = chain_data;
          write_on_change = write_on_change;
        })

  owned_more : Option (Owned j) → Option (Owned j)
  owned_more none = none
  owned_more (some o) = some (record o { owners = o.owners + 1 })

  clone_file : DaemonStateFile → World j → World j
  unfolding owned_more
  clone_file (read_only path) w = w
  clone_file (full_access i) w = put_arc j w i (owned_more (w.arcs i))

  -- The `clone` of a handle is the same handle; its `Arc` has an owner more.
  unfoldable pub clone : {Price : Type 0} → DaemonState Price → World j → World j
  unfolding clone_file
  clone d w = clone_file d.json_state w

  -- The last owner of an `Arc` drops the locked state, which writes the file.
  release : ℕ → Owned j → World j → World j
  release i o w =
      if leb o.owners 1
      then record (put_arc j w i none) { files = Locked.force_write j o.locked w.files }
      else put_arc j w i (some (record o { owners = o.owners - 1 }))

  drop_owned : ℕ → Option (Owned j) → Exec (World j) DaemonError Unit
  unfolding release
  drop_owned i none w = (panic, w)
  drop_owned i (some o) w =
      (ok tt, release i o (record w { locked_files = Dict.remove w.locked_files o.locked.path }))

  drop_file : DaemonStateFile → Exec (World j) DaemonError Unit
  unfolding drop_owned
  drop_file (read_only path) w = (ok tt, w)
  drop_file (full_access i) w = drop_owned i (w.arcs i) w

  -- `Drop for DaemonState`, and the drop of the fields
  unfoldable pub drop : {Price : Type 0} → DaemonState Price → Exec (World j) DaemonError Unit
  unfolding drop_file
  drop d = drop_file d.json_state
