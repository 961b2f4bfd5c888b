-- ===== src/Daemon/State/Lifecycle/Sharing.antt =====
-- Who may open a state file, and what clones and drops do to that.
use cw_orchestrator.Common.{
  ℕ, ◌+◌, ◌-◌, ◌≡◌, ◌≤◌, refl, arith, String, Bool, true, false, Option, none, some, ok, err,
  if◌then◌else◌, eq_refl, leb, eqb,
}
use cw_orchestrator.Common.Dict
use cw_orchestrator.Core.ChainInfo.{ChainInfo}
use cw_orchestrator.Daemon.Error.{state_already_locked}
use cw_orchestrator.Daemon.Json.{Json, JsonLaws}
use cw_orchestrator.Daemon.Json.Locked
use cw_orchestrator.Daemon.Json.Locked.{JsonLockedState}
use cw_orchestrator.Daemon.Json.Locked.Preparing.{IsStateFile, prepare-IsPrepared}
use cw_orchestrator.Daemon.State.{full_access, DaemonState, World}
use cw_orchestrator.Daemon.State.Writes.{IsLive}
use cw_orchestrator.Daemon.State.Lifecycle.{new, path_for, clone, drop, unless_locked, open_locked}

module _ (j : Json) (lockable : String → Bool) (file_stem parent : String → Option String)
    {Price : Type 0} (json_file_path : String) (chain_data : ChainInfo Price)
    (deployment_id : String) (write_on_change : Bool) (path : String)
    (is_path : path_for j lockable file_stem parent chain_data.kind json_file_path ≡ ok path)
    (w : World j) where
  pub new-refused :
      Dict.get w.locked_files path ≡ some tt
      → new j lockable file_stem parent json_file_path chain_data deployment_id false
          write_on_change w
        ≡ (err (state_already_locked path), w)
  unfolding new unless_locked
  new-refused locked = rw (is_path, locked) refl

  abbrev pub opened_handle : DaemonState Price
  opened_handle = record {
    json_state = full_access w.next;
    deployment_id = deployment_id;
    chain_data = chain_data;
    write_on_change = write_on_change;
  }

  abbrev opened_world : JsonLockedState j → World j
  opened_world l =
      let files = (Locked.new j (lockable path) path w.files).1 in
      record {
        files = if write_on_change then Locked.force_write j l files else files;
        locked_files = Dict.insert w.locked_files path tt;
        arcs = λ k. if eqb w.next k then some (record { locked = l; owners = 1 }) else w.arcs k;
        next = w.next + 1;
      }

  -- If the JSON values keep their documented laws, the path that `new` chooses is not in
  -- `LOCKED_FILES`, its file opens, and every path of the state in it leads to an object or is
  -- missing, a handle of full access is given; it is live, and the path is then in `LOCKED_FILES`.
  pub new-IsLive :
      JsonLaws j
      → Dict.get w.locked_files path ≡ none
      → (l : JsonLockedState j) → (Locked.new j (lockable path) path w.files).0 ≡ ok l
      → IsStateFile j chain_data.network_info.chain_name chain_data.chain_id deployment_id l.json
      → (w' : World j) × (new j lockable file_stem parent json_file_path chain_data deployment_id
            false write_on_change w
          ≡ (ok opened_handle, w'))
        × IsLive j opened_handle w'
        × (Dict.get w'.locked_files path ≡ some tt)
  unfolding new unless_locked open_locked
  new-IsLive laws free l opened file =
      let (l', done, same_path, prepared, tables) =
        prepare-IsPrepared j chain_data.network_info.chain_name chain_data.chain_id deployment_id
          laws l file in
      (
        opened_world l',
        rw (is_path, free, opened, done) refl,
        record {
          number = w.next;
          full = refl;
          owned = record { locked = l'; owners = 1 };
          arc = ground arith;
          prepared = prepared;
        },
        rw (Dict.get-insert w.locked_files path path tt, eq_refl path) refl,
      )

module _ (j : Json) {Price : Type 0} (d : DaemonState Price) (w : World j) where
  eqb_refl : (n : ℕ) → eqb n n ≡ true
  eqb_refl n = ground arith

  more_than_one : (n : ℕ) → 1 ≤ n → leb (n + 1) 1 ≡ false
  more_than_one n h = ground (arith, h)

  one_more_less : (n : ℕ) → n + 1 - 1 ≡ n
  one_more_less n = omega arith

  -- If a live handle whose state has an owner is cloned and the clone is dropped, the handle's
  -- state is there as before, with as many owners, and the files are as before, but its path is no
  -- longer in `LOCKED_FILES`.
  pub drop-clone :
      (live : IsLive j d w)
      → 1 ≤ live.owned.owners
      → ((drop j d (clone j d w)).0 ≡ ok tt)
        × ((drop j d (clone j d w)).1.arcs live.number ≡ some live.owned)
        × ((drop j d (clone j d w)).1.files ≡ w.files)
        × (Dict.get (drop j d (clone j d w)).1.locked_files live.owned.locked.path ≡ none)
  unfolding drop clone
  drop-clone live shared =
      let o = live.owned in
      rw
        (
          live.full,
          live.arc,
          eqb_refl live.number,
          more_than_one o.owners shared,
          eqb_refl live.number,
          one_more_less o.owners,
          Dict.get-remove w.locked_files o.locked.path o.locked.path,
          eq_refl o.locked.path,
        )
        (refl, refl, refl, refl)
