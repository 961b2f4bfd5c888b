-- ===== src/Daemon/State/Lifecycle/Exclusive.antt =====
-- Two handles of full access on one state file, in cw-orch-daemon/src/state.rs.
use cw_orchestrator.Common.{
  ◌≡◌, refl, String, Bool, false, Option, some, Outcome, ok, err, Option-cases, inl, inr, eq_refl,
}
use cw_orchestrator.Common.Dict
use cw_orchestrator.Common.Exec.{>>=-eq-ok}
use cw_orchestrator.Core.ChainInfo.{ChainInfo}
use cw_orchestrator.Daemon.Error.{DaemonError, state_already_locked}
use cw_orchestrator.Daemon.Json.{Json}
use cw_orchestrator.Daemon.Json.Locked
use cw_orchestrator.Daemon.State.{DaemonStateFile, DaemonState, World}
use cw_orchestrator.Daemon.State.Lifecycle.Sharing.{new-refused}
use cw_orchestrator.Daemon.State.Lifecycle.{new, path_for, unless_locked, open_locked, on_files}

module _ (j : Json) (lockable : String → Bool) (file_stem parent : String → Option String) where
  abbrev IsTaken : String → World j → Type 0
  IsTaken path w = Dict.get w.locked_files path ≡ some tt

  module _ (path chain_id network_id deployment_id : String) (write_on_change : Bool)
      (w : World j) where
    abbrev opening : World j → Outcome DaemonError DaemonStateFile × World j
    opening =
        open_locked j lockable file_stem parent path chain_id network_id deployment_id
          write_on_change

    open_locked-IsTaken :
        (file : DaemonStateFile) → (opening w).0 ≡ ok file → IsTaken path (opening w).1
    unfolding open_locked
    open_locked-IsTaken file h =
        let (l, read, q) = >>=-eq-ok (on_files j (Locked.new j (lockable path) path)) _ w h in
        let (l', prepared, q₁) =
          >>=-eq-ok (λ m. (Locked.prepare j l chain_id network_id deployment_id, m)) _ _
            (rw q at h) in
        rw (q, q₁, Dict.get-insert w.locked_files path path tt, eq_refl path) refl

    unless_locked-IsTaken :
        (file : DaemonStateFile)
        → (unless_locked j lockable file_stem parent path opening w).0 ≡ ok file
        → IsTaken path (unless_locked j lockable file_stem parent path opening w).1
    unfolding unless_locked
    unless_locked-IsTaken file h = elim (Option-cases (Dict.get w.locked_files path)) [
      | inl free ↦ rw free (open_locked-IsTaken file (rw free at h))
      | inr (t, locked) ↦ rw locked locked
    ]

  module _ {Price : Type 0} (json_file_path json_file_path' : String)
      (chain_data chain_data' : ChainInfo Price) (deployment_id deployment_id' : String)
      (write_on_change write_on_change' : Bool) (path : String)
      (is_path : path_for j lockable file_stem parent chain_data.kind json_file_path ≡ ok path)
      (is_path' : path_for j lockable file_stem parent chain_data'.kind json_file_path' ≡ ok path)
      (w : World j) where
    abbrev first : Outcome DaemonError (DaemonState Price) × World j
    first =
        new j lockable file_stem parent json_file_path chain_data deployment_id false
          write_on_change w

    new-IsTaken : (d : DaemonState Price) → first.0 ≡ ok d → IsTaken path first.1
    unfolding new
    new-IsTaken d h =
        let opening = unless_locked j lockable file_stem parent path (
          open_locked j lockable file_stem parent path chain_data.chain_id
            chain_data.network_info.chain_name deployment_id write_on_change) in
        let (file, opened, q) = >>=-eq-ok opening _ w (rw is_path at h) in
        rw (is_path, q)
          (unless_locked-IsTaken path chain_data.chain_id chain_data.network_info.chain_name
            deployment_id write_on_change w file opened)

    -- If a handle of full access was given on a file, a second one on the same file is refused, with
    -- the error that the file is locked and without a change, whatever its chain, deployment and flag are.
    pub new-excludes :
        (d : DaemonState Price)
        → first.0 ≡ ok d
        → new j lockable file_stem parent json_file_path' chain_data' deployment_id' false
            write_on_change' first.1
          ≡ (err (state_already_locked path), first.1)
    new-excludes d h =
        new-refused j lockable file_stem parent json_file_path' chain_data' deployment_id'
          write_on_change' path is_path' first.1 (new-IsTaken d h)
