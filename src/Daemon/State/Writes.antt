-- ===== src/Daemon/State/Writes.antt =====
-- What the writes of a handle of full access do to a live state.
use cw_orchestrator.Common.{
  ℕ, String, ◌≡◌, refl, arith, Bool, true, false, some, ok, if◌then◌else◌, ◌==◌, eq_refl,
}
use cw_orchestrator.Common.Dict
use cw_orchestrator.Common.Dict.{map_laws}
use cw_orchestrator.Daemon.Json.{Json, JsonLaws, index}
use cw_orchestrator.Daemon.Json.Locked
use cw_orchestrator.Daemon.Json.Locked.{JsonLockedState}
use cw_orchestrator.Daemon.Json.Locked.Preparing.{IsPrepared}
use cw_orchestrator.Daemon.Json.Locked.Writing.{get_mut-assign_in}
use cw_orchestrator.Daemon.State.{
  read_only, full_access, DaemonState, Owned, World, commit, get, set, force_write,
}

module _ (j : Json) where
  arc-commit :
      (always : Bool) (w : World j) (i : ℕ) (l : JsonLockedState j) (o : Owned j)
      → w.arcs i ≡ some o
      → (commit j always w i l).arcs i ≡ some (record { locked = l; owners = o.owners })
  arc-commit true w i l o here = ground (arith, here)
  arc-commit false w i l o here = ground (arith, here)

  -- What is written to the file is read from it.
  pub read-force_write :
      JsonLaws j
      → (io_error : String → String) (l : JsonLockedState j) (files : Locked.Files j)
      → Locked.read j io_error (Locked.force_write j l files) l.path ≡ ok l.json
  unfolding Locked.read Locked.force_write
  read-force_write laws io_error l files =
      rw
        (
          Dict.get-insert files l.path l.path (j.print l.json),
          eq_refl l.path,
          laws.parse_print l.json,
        )
        refl

module _ (j : Json) {Price : Type 0} (d : DaemonState Price) where
  -- The state file of the handle is open, and prepared for its chain and deployment.
  pub record IsLive (w : World j) : Type 0 where
    pub number : ℕ
    pub full : d.json_state ≡ full_access number
    pub owned : Owned j
    pub arc : w.arcs number ≡ some owned
    pub prepared :
        IsPrepared j d.chain_data.network_info.chain_name d.chain_data.chain_id d.deployment_id
          owned.locked.json

  -- The table of the chain under a key.
  abbrev pub table : JsonLockedState j → String → j.Value
  table l key =
      index j (Locked.get j l d.chain_data.network_info.chain_name d.chain_data.chain_id) key

  pub get-table :
      (io_error : String → String) (w : World j) (live : IsLive w) (key : String)
      → get j io_error d key w ≡ ok (table live.owned.locked key)
  unfolding get
  get-table io_error w live key = rw (live.full, live.arc) refl

  module _ (laws : JsonLaws j) (w : World j) (live : IsLive w) (key id : String) (x : j.Value)
      (is_table : j.is_map (table live.owned.locked key) ≡ true) where
    -- The entry is written, the handle stays live, and the other tables are as before.
    pub set-live :
        (w' : World j) × (set j d key id x w ≡ (ok tt, w'))
        × (live' : IsLive w') × ((k : String)
            → table live'.owned.locked k ≡ (
                if key == k
                then j.put (table live.owned.locked key) id x
                else table live.owned.locked k))
        × (d.write_on_change ≡ true → w'.files ≡ Locked.force_write j live'.owned.locked w.files)
    unfolding set
    set-live =
        let (l', done, path, prepared, tables) =
          get_mut-assign_in j d.chain_data.network_info.chain_name d.chain_data.chain_id
            d.deployment_id laws live.owned.locked live.prepared key id x is_table in
        (
          commit j d.write_on_change w live.number l',
          rw (live.full, live.arc, done) refl,
          record {
            number = live.number;
            full = live.full;
            owned = record { locked = l'; owners = live.owned.owners };
            arc = arc-commit j d.write_on_change w live.number l' live.owned live.arc;
            prepared = prepared;
          },
          tables,
          λ always. rw always refl,
        )

  -- `force_write` on a live handle writes its file and changes nothing else.
  pub force_write-live :
      (w : World j) (live : IsLive w)
      → force_write j d w
        ≡ (ok tt, record w { files = Locked.force_write j live.owned.locked w.files })
  unfolding force_write
  force_write-live w live = rw (live.full, live.arc) refl

  -- If the JSON values keep their documented laws and the files of the world are some files with
  -- the state of the live handle written to its file, then the same handle with read-only access to
  -- that file reads under each key what the live one reads.
  pub get-read_only :
      JsonLaws j
      → (io_error : String → String) (w : World j) (live : IsLive w) (files : Locked.Files j)
      → w.files ≡ Locked.force_write j live.owned.locked files
      → (key : String)
      → get j io_error (record d { json_state = read_only live.owned.locked.path }) key w
        ≡ get j io_error d key w
  unfolding get Locked.get
  get-read_only laws io_error w live files written key =
      rw (written, read-force_write j laws io_error live.owned.locked files, live.full, live.arc)
        refl
