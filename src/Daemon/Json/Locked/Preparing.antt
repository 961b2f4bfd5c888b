-- ===== src/Daemon/Json/Locked/Preparing.antt =====
-- What `prepare` establishes and keeps, and what a write through `get_mut` changes.
use cw_orchestrator.Common.{
  String, ◌≡◌, inl, inr, refl, arith, true, none, some, Option-cases, ok, if◌then◌else◌, ◌==◌,
  eq_refl,
}
use cw_orchestrator.Daemon.Json.{Json, JsonLaws, index, assign, assign_in, index-put}
use cw_orchestrator.Daemon.Json.Locked.{
  JsonLockedState, prepare, get, fresh_chain, prepare_network, prepare_chain,
}

module _ (j : Json) (network_id chain_id deploy_id : String) where
  abbrev pub chain_of : j.Value → j.Value
  chain_of json = index j (index j json network_id) chain_id

  -- Whatever a path of the state of this deployment leads to is an object, or missing.
  pub record IsStateFile (json : j.Value) : Type 0 where
    pub root : j.is_map json ≡ true
    pub network : j.is_map (index j json network_id) ≡ true
    pub chain : j.is_map (chain_of json) ≡ true
    pub addresses : j.is_map (index j (chain_of json) deploy_id) ≡ true
    pub code_ids : j.is_map (index j (chain_of json) "code_ids") ≡ true

  -- The state of the chain is there as well.
  pub record IsPrepared (json : j.Value) : Type 0 where
    pub is_state_file : IsStateFile json
    pub state_of_chain : j.Value
    pub present : j.get (index j json network_id) chain_id ≡ some state_of_chain

  module _ (laws : JsonLaws j) where
    is_map-index : (v : j.Value) (k : String) → j.get v k ≡ none → j.is_map (index j v k) ≡ true
    unfolding index
    is_map-index v k missing = rw missing laws.is_map_null

    -- The result of a write below the chain, and what it leads to.
    pub put_chain : j.Value → j.Value → j.Value
    put_chain json v = j.put json network_id (j.put (index j json network_id) chain_id v)

    module _ (json : j.Value) (root : j.is_map json ≡ true)
        (network : j.is_map (index j json network_id) ≡ true) (v : j.Value) where
      pub assign_in-put_chain : assign_in j json network_id chain_id v ≡ ok (put_chain json v)
      unfolding assign_in put_chain
      assign_in-put_chain = rw (root, network) refl

      is_map-put_chain : j.is_map (put_chain json v) ≡ true
      unfolding put_chain
      is_map-put_chain = laws.is_map_put json _ network_id root

      network-put_chain :
          index j (put_chain json v) network_id ≡ j.put (index j json network_id) chain_id v
      unfolding put_chain
      network-put_chain =
          rw
            (
              index-put j laws json (j.put (index j json network_id) chain_id v) network_id
                  network_id root,
              eq_refl network_id,
            )
            refl

      pub chain-put_chain : chain_of (put_chain json v) ≡ v
      chain-put_chain =
          rw
            (
              network-put_chain,
              index-put j laws (index j json network_id) v chain_id chain_id network,
              eq_refl chain_id,
            )
            refl

      pub IsPrepared-put_chain :
          j.is_map v ≡ true
          → j.is_map (index j v deploy_id) ≡ true
          → j.is_map (index j v "code_ids") ≡ true
          → IsPrepared (put_chain json v)
      IsPrepared-put_chain chain addresses code_ids = record {
        is_state_file = record {
          root = is_map-put_chain;
          network = rw network-put_chain (laws.is_map_put _ v chain_id network);
          chain = rw chain-put_chain chain;
          addresses = rw chain-put_chain addresses;
          code_ids = rw chain-put_chain code_ids;
        };
        state_of_chain = v;
        present =
            rw
              (
                network-put_chain,
                laws.get_put (index j json network_id) v chain_id chain_id network,
                eq_refl chain_id,
              )
              refl;
      }

    module _ (v : j.Value) (k : String) where
      get-missing : (id : String) → j.get v k ≡ none → j.get (index j v k) id ≡ none
      unfolding index
      get-missing id missing = rw missing (laws.get_null id)

      index-missing : j.get v k ≡ none → index j v k ≡ j.null
      unfolding index
      index-missing missing = rw missing refl

    get-fresh_chain :
        (k : String)
        → j.get (fresh_chain j deploy_id) k ≡ (
            if "code_ids" == k
            then some j.empty_object
            else if deploy_id == k
            then some j.empty_object
            else none)
    get-fresh_chain k =
        let first = laws.is_map_put j.empty_object j.empty_object deploy_id laws.is_map_empty in
        rw
          (
            laws.get_put _ j.empty_object "code_ids" k first,
            laws.get_put j.empty_object j.empty_object deploy_id k laws.is_map_empty,
            laws.get_empty k,
          )
          refl

    -- A table of a fresh chain is an empty object or missing.
    fresh_table :
        (k : String)
        → (j.is_map (index j (fresh_chain j deploy_id) k) ≡ true)
          × ((id : String) → j.get (index j (fresh_chain j deploy_id) k) id ≡ none)
    unfolding index
    fresh_table k = rw (get-fresh_chain k) (
      ground (arith, laws.is_map_empty, laws.is_map_null),
      λ id. ground (arith, laws.get_empty id, laws.get_null id),
    )

    prepare_network_lem :
        (json : j.Value)
        → IsStateFile json
        → (json' : j.Value) × (prepare_network j json network_id ≡ ok json')
          × IsStateFile json'
          × (chain_of json' ≡ chain_of json)
    unfolding prepare_network assign
    prepare_network_lem json file = elim (Option-cases (j.get json network_id)) [
      | inr (n, here) ↦ (json, rw here refl, file, refl)
      | inl missing ↦
          let json' = j.put json network_id j.empty_object in
          let inner : index j json' network_id ≡ j.empty_object =
            rw
              (
                index-put j laws json j.empty_object network_id network_id file.root,
                eq_refl network_id,
              )
              refl in
          let same : chain_of json' ≡ chain_of json =
            rw
              (
                inner,
                index-missing j.empty_object chain_id (laws.get_empty chain_id),
                index-missing json network_id missing,
                index-missing j.null chain_id (laws.get_null chain_id),
              )
              refl in
          (
            json',
            rw (missing, file.root) refl,
            record {
              root = laws.is_map_put json j.empty_object network_id file.root;
              network = rw inner laws.is_map_empty;
              chain = rw same file.chain;
              addresses = rw same file.addresses;
              code_ids = rw same file.code_ids;
            },
            same,
          )
    ]

    prepare_chain_lem :
        (json : j.Value)
        → IsStateFile json
        → (json' : j.Value) × (prepare_chain j json chain_id network_id (fresh_chain j deploy_id)
            ≡ ok json')
          × IsPrepared json'
          × ((k id : String)
              → j.get (index j (chain_of json') k) id ≡ j.get (index j (chain_of json) k) id)
    unfolding prepare_chain
    prepare_chain_lem json file =
        let fresh = fresh_chain j deploy_id in
        elim (Option-cases (j.get (index j json network_id) chain_id)) [
          | inr (n, here) ↦ (
            json,
            rw here refl,
            record { is_state_file = file; state_of_chain = n; present = here },
            λ k id. refl,
          )
          | inl missing ↦ (
            put_chain json fresh,
            rw (missing, assign_in-put_chain json file.root file.network fresh) refl,
            IsPrepared-put_chain json file.root file.network fresh
                (laws.is_map_put _ _ _ (laws.is_map_put _ _ _ laws.is_map_empty))
                (fresh_table deploy_id).0 (fresh_table "code_ids").0,
            λ k id.
                rw
                  (
                    chain-put_chain json file.root file.network fresh,
                    (fresh_table k).1 id,
                    index-missing (index j json network_id) chain_id missing,
                    get-missing j.null k id (laws.get_null k),
                  )
                  refl,
          )
        ]

    -- If the JSON values keep their documented laws and every path of the state file leads to an
    -- object or is missing, `prepare` succeeds and keeps the path of the file, the state of the
    -- chain is then there, and every entry of every table of the chain reads as before.
    pub prepare-IsPrepared :
        (s : JsonLockedState j)
        → IsStateFile s.json
        → (s' : JsonLockedState j) × (prepare j s chain_id network_id deploy_id ≡ ok s')
          × (s'.path ≡ s.path)
          × IsPrepared s'.json
          × ((k id : String)
              → j.get (index j (get j s' network_id chain_id) k) id
                ≡ j.get (index j (get j s network_id chain_id) k) id)
    unfolding prepare get
    prepare-IsPrepared s file =
        let (json, done, file', same) = prepare_network_lem s.json file in
        let (json', done', prepared, tables) = prepare_chain_lem json file' in
        (
          record s { json = json' },
          rw (done, done') refl,
          refl,
          prepared,
          λ k id. rw same at tables k id,
        )
