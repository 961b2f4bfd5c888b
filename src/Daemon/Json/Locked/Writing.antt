-- ===== src/Daemon/Json/Locked/Writing.antt =====
-- What a write through `get_mut` changes.
use cw_orchestrator.Common.{String, ◌≡◌, refl, arith, true, some, Outcome, ok, if◌then◌else◌, ◌==◌}
use cw_orchestrator.Daemon.Error.{DaemonError}
use cw_orchestrator.Daemon.Json.{Json, JsonLaws, index, assign_in, index-put}
use cw_orchestrator.Daemon.Json.Locked.{JsonLockedState, get, get_mut}
use cw_orchestrator.Daemon.Json.Locked.Preparing.{
  IsPrepared, put_chain, assign_in-put_chain, chain-put_chain, IsPrepared-put_chain,
}

module _ (j : Json) (network_id chain_id deploy_id : String) (laws : JsonLaws j) where
  index-present : (v x : j.Value) (k : String) → j.get v k ≡ some x → index j v k ≡ x
  unfolding index
  index-present v x k here = rw here refl

  pub present-get :
      (s : JsonLockedState j)
      → IsPrepared j network_id chain_id deploy_id s.json
      → j.get (index j s.json network_id) chain_id ≡ some (get j s network_id chain_id)
  unfolding get
  present-get s prepared =
      rw (prepared.present, index-present _ prepared.state_of_chain chain_id prepared.present) refl

  module _ (s : JsonLockedState j)
      (prepared : IsPrepared j network_id chain_id deploy_id s.json) where
    -- A change of the chain's value by a function that gives `v`.
    pub get_mut-put_chain :
        (change : j.Value → Outcome DaemonError j.Value) (v : j.Value)
        → change (get j s network_id chain_id) ≡ ok v
        → get_mut j s network_id chain_id change
          ≡ ok (record s { json = put_chain j network_id chain_id deploy_id laws s.json v })
    unfolding get_mut
    get_mut-put_chain change v changed =
        rw
          (
            present-get s prepared,
            changed,
            assign_in-put_chain j network_id chain_id deploy_id laws s.json
                prepared.is_state_file.root prepared.is_state_file.network v,
          )
          refl

    is_map-chain : j.is_map (get j s network_id chain_id) ≡ true
    unfolding get
    is_map-chain = prepared.is_state_file.chain

    is_map-addresses : j.is_map (index j (get j s network_id chain_id) deploy_id) ≡ true
    unfolding get
    is_map-addresses = prepared.is_state_file.addresses

    is_map-code_ids : j.is_map (index j (get j s network_id chain_id) "code_ids") ≡ true
    unfolding get
    is_map-code_ids = prepared.is_state_file.code_ids

    module _ (key id : String) (x : j.Value)
        (table : j.is_map (index j (get j s network_id chain_id) key) ≡ true) where
      entered : j.Value
      entered = let v = get j s network_id chain_id in j.put v key (j.put (index j v key) id x)

      index-entered :
          (k : String)
          → index j entered k ≡ (
              if key == k
              then j.put (index j (get j s network_id chain_id) key) id x
              else index j (get j s network_id chain_id) k)
      unfolding entered
      index-entered k = index-put j laws (get j s network_id chain_id) _ key k is_map-chain

      is_map-entered :
          (k : String)
          → j.is_map (index j (get j s network_id chain_id) k) ≡ true
          → j.is_map (index j entered k) ≡ true
      is_map-entered k h = rw (index-entered k) (
          ground (arith, h, laws.is_map_put (index j (get j s network_id chain_id) key) x id table))

      is_map-whole : j.is_map entered ≡ true
      unfolding entered
      is_map-whole = laws.is_map_put _ _ key is_map-chain

      assign_in-entered : assign_in j (get j s network_id chain_id) key id x ≡ ok entered
      unfolding assign_in entered
      assign_in-entered = rw (is_map-chain, table) refl

      -- The state of the locked file with the entry.
      after : JsonLockedState j
      after = record s { json = put_chain j network_id chain_id deploy_id laws s.json entered }

      get-after : get j after network_id chain_id ≡ entered
      unfolding after get
      get-after =
          chain-put_chain j network_id chain_id deploy_id laws s.json prepared.is_state_file.root
            prepared.is_state_file.network entered

      -- `val[key][id] = x` succeeds on a prepared state, which stays prepared; the table of the key
      -- then has the entry, and the other tables are as before.
      pub get_mut-assign_in :
          (s' : JsonLockedState j) × (get_mut j s network_id chain_id (λ v. assign_in j v key id x)
            ≡ ok s')
          × (s'.path ≡ s.path)
          × IsPrepared j network_id chain_id deploy_id s'.json
          × ((k : String)
              → index j (get j s' network_id chain_id) k ≡ (
                  if key == k
                  then j.put (index j (get j s network_id chain_id) key) id x
                  else index j (get j s network_id chain_id) k))
      unfolding after
      get_mut-assign_in = (
        after,
        get_mut-put_chain (λ v. assign_in j v key id x) entered assign_in-entered,
        refl,
        IsPrepared-put_chain j network_id chain_id deploy_id laws s.json prepared.is_state_file.root
            prepared.is_state_file.network entered is_map-whole
            (is_map-entered deploy_id is_map-addresses) (is_map-entered "code_ids" is_map-code_ids),
        λ k. rw get-after (index-entered k),
      )
