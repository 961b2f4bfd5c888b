-- ===== src/Daemon/State/Laws.antt =====
-- `DaemonState` and the contract of `StateInterface`.
use cw_orchestrator.Common.{
  ℕ, String, ◌≡◌, refl, arith, true, false, ok, panic, ◌>>=◌, if◌then◌else◌, ◌==◌, eq_refl, eq_iff,
  ok_or, unwrap,
}
use cw_orchestrator.Core.Error.{addr_not_in_store, code_id_not_in_store}
use cw_orchestrator.Core.State.{StateLaws, Wrote}
use cw_orchestrator.Daemon.Error.{DaemonError}
use cw_orchestrator.Daemon.Json.{Json, JsonLaws}
use cw_orchestrator.Daemon.Json.Locked
use cw_orchestrator.Daemon.State.{DaemonState, World, set, remove}
use cw_orchestrator.Daemon.State.Interface.{
  get_address, get_code_id, set_address, set_code_id, remove_address, daemon_state,
}
use cw_orchestrator.Daemon.State.Writes.{IsLive, table, get-table, set-live}

module _ (j : Json) (laws : JsonLaws j) (io_error : String → String)
    (message : DaemonError → String) {Price : Type 0} (d : DaemonState Price) where
  module _ (w : World j) (live : IsLive j d w) where
    get_address-table :
        (id : String)
        → get_address j io_error message d w id ≡ (
            ok_or (j.get (table j d live.owned.locked d.deployment_id) id) (addr_not_in_store id)
            >>= λ v. unwrap (j.as_str v))
    unfolding get_address
    get_address-table id = rw (get-table j d io_error w live d.deployment_id) refl

    get_code_id-table :
        (id : String)
        → get_code_id j io_error message d w id ≡ (
            ok_or (j.get (table j d live.owned.locked "code_ids") id) (code_id_not_in_store id)
            >>= λ v. unwrap (j.as_u64 v))
    unfolding get_code_id
    get_code_id-table id = rw (get-table j d io_error w live "code_ids") refl

    is_map-addresses : j.is_map (table j d live.owned.locked d.deployment_id) ≡ true
    unfolding Locked.get
    is_map-addresses = live.prepared.is_state_file.addresses

    is_map-code_ids : j.is_map (table j d live.owned.locked "code_ids") ≡ true
    unfolding Locked.get
    is_map-code_ids = live.prepared.is_state_file.code_ids

  module _ (apart : (d.deployment_id == "code_ids") ≡ false) where
    -- If the JSON values keep their documented laws, the deployment is not called `code_ids` and
    -- the handle is live, `set_address` succeeds and the handle stays live; the address is then
    -- read under its key, and every other key and every code id read as before.
    pub set_address-reads :
        (w : World j) (k a : String) (live : IsLive j d w)
        → Wrote
            (daemon_state j io_error message d)
            (IsLive j d)
            (set_address j d w k a)
            (λ i. if k == i then ok a else get_address j io_error message d w i)
            (λ i. get_code_id j io_error message d w i)
    unfolding set_address
    set_address-reads w k a live =
        let (w', done, live', tables, always) =
          set-live j d laws w live d.deployment_id k (j.string a) (is_map-addresses w live) in
        record {
          next = w';
          done = rw done refl;
          valid = live';
          addresses = λ i.
              rw
                (
                  get_address-table w' live' i,
                  get_address-table w live i,
                  tables d.deployment_id,
                  eq_refl d.deployment_id,
                  laws.get_put (table j d live.owned.locked d.deployment_id) (j.string a) k i
                      (is_map-addresses w live),
                )
                (ground (arith, laws.as_str_string a));
          code_ids = λ i.
              rw
                (get_code_id-table w' live' i, get_code_id-table w live i, tables "code_ids", apart)
                refl;
        }

    -- If the JSON values keep their documented laws, the deployment is not called `code_ids` and
    -- the handle is live, `set_code_id` succeeds and the handle stays live; the code id is then
    -- read under its key, and every other key and every address read as before.
    pub set_code_id-reads :
        (w : World j) (k : String) (c : ℕ) (live : IsLive j d w)
        → Wrote
            (daemon_state j io_error message d)
            (IsLive j d)
            (set_code_id j d w k c)
            (λ i. get_address j io_error message d w i)
            (λ i. if k == i then ok c else get_code_id j io_error message d w i)
    unfolding set_code_id
    set_code_id-reads w k c live =
        let (w', done, live', tables, always) =
          set-live j d laws w live "code_ids" k (j.number c) (is_map-code_ids w live) in
        let apart' : ("code_ids" == d.deployment_id) ≡ false =
          ground (arith, eq_iff "code_ids" d.deployment_id, eq_iff d.deployment_id "code_ids") in
        record {
          next = w';
          done = rw done refl;
          valid = live';
          addresses = λ i.
              rw
                (
                  get_address-table w' live' i,
                  get_address-table w live i,
                  tables d.deployment_id,
                  apart',
                )
                refl;
          code_ids = λ i.
              rw
                (
                  get_code_id-table w' live' i,
                  get_code_id-table w live i,
                  tables "code_ids",
                  laws.get_put (table j d live.owned.locked "code_ids") (j.number c) k i
                      (is_map-code_ids w live),
                )
                (ground (arith, laws.as_u64_number c));
        }

    -- If the JSON values keep their documented laws and the deployment is not called `code_ids`,
    -- the daemon state keeps the contract of `StateInterface` on the worlds where its handle is
    -- live: every write is read back under its key, every other key and the other table read as
    -- before, no write fails, and the handle stays live.
    pub daemon_state-StateLaws : StateLaws (daemon_state j io_error message d) (IsLive j d)
    daemon_state-StateLaws = record {
      address_set = set_address-reads;
      code_id_set = set_code_id-reads;
    }

  -- A removal writes null.
  remove-set : (key id : String) (w : World j) → remove j d key id w ≡ set j d key id j.null w
  unfolding remove set
  remove-set key id w = refl

  -- If the JSON values keep their documented laws and the handle is live, removing an address
  -- succeeds, and reading it then panics.
  pub get_address-remove_address :
      (w : World j)
      → IsLive j d w
      → (k : String)
      → (w' : World j) × (remove_address j d w k ≡ ok w')
        × (get_address j io_error message d w' k ≡ panic)
  unfolding remove_address
  get_address-remove_address w live k =
      let (w', done, live', tables, always) =
        set-live j d laws w live d.deployment_id k j.null (is_map-addresses w live) in
      (
        w',
        rw (remove-set d.deployment_id k w, done) refl,
        rw
            (
              get_address-table w' live' k,
              tables d.deployment_id,
              eq_refl d.deployment_id,
              laws.get_put (table j d live.owned.locked d.deployment_id) j.null k k
                  (is_map-addresses w live),
              eq_refl k,
              laws.as_str_null,
            )
            refl,
      )
