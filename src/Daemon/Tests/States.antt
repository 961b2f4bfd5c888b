-- ===== src/Daemon/Tests/States.antt =====
-- The state files of the daemon, over JSON trees: a handle opened on no file.
use cw_orchestrator.Common.{
  ◌≡◌, refl, ap, String, Bool, true, false, Option, none, some, [], ok, err, panic, if◌then◌else◌,
  arith, eqb,
}
use cw_orchestrator.Common.Dict
use cw_orchestrator.Core.ChainInfo.{ChainInfo, testnet, is_local}
use cw_orchestrator.Core.State.{StateLaws}
use cw_orchestrator.Daemon.Error.{DaemonError, state_already_locked}
use cw_orchestrator.Daemon.Json.{index}
use cw_orchestrator.Daemon.Json.Locked
use cw_orchestrator.Daemon.Json.Locked.{JsonLockedState, prepare, fresh_chain}
use cw_orchestrator.Daemon.Json.Locked.Preparing.{IsStateFile, IsPrepared, prepare-IsPrepared}
use cw_orchestrator.Daemon.Json.Tree.{tree_json, tree_json-JsonLaws}
use cw_orchestrator.Daemon.State.{DaemonState, World, full_access, read_only, get, Owned}
use cw_orchestrator.Daemon.State.Interface.{daemon_state, get_address, remove_address}
use cw_orchestrator.Daemon.State.Writes.{IsLive, get-read_only}
use cw_orchestrator.Daemon.State.Laws.{daemon_state-StateLaws, get_address-remove_address}
use cw_orchestrator.Daemon.State.Lifecycle.{new, clone, drop}
use cw_orchestrator.Daemon.State.Lifecycle.Exclusive.{new-excludes}
use cw_orchestrator.Daemon.State.Lifecycle.Sharing.{new-IsLive, drop-clone}

abbrev juno : ChainInfo Unit
juno = record {
  chain_id = "uni-6";
  gas_denom = "ujunox";
  gas_price = tt;
  grpc_urls = [];
  lcd_url = none;
  fcd_url = none;
  network_info = record { chain_name = "juno"; pub_address_prefix = "juno"; coin_type = 118 };
  kind = testnet;
}

abbrev not_found : String → String
not_found path = "not found"

abbrev text_of : DaemonError → String
text_of e = "an error"

abbrev any_path : String → Bool
any_path path = true

abbrev no_part : String → Option String
no_part path = none

-- The file of an empty state, prepared.
abbrev empty_file : JsonLockedState tree_json
empty_file = record { json = tree_json.empty_object; path = "state.json" }

empty_file-IsStateFile : IsStateFile tree_json "juno" "uni-6" "default" empty_file.json
unfolding index tree_json
empty_file-IsStateFile = record {
  root = refl;
  network = refl;
  chain = refl;
  addresses = refl;
  code_ids = refl;
}

prepare-IsPrepared_example :
    (s' : JsonLockedState tree_json) × (prepare tree_json empty_file "uni-6" "juno" "default"
      ≡ ok s')
    × (s'.path ≡ "state.json")
    × IsPrepared tree_json "juno" "uni-6" "default" s'.json
    × ((k id : String)
        → tree_json.get (index tree_json (Locked.get tree_json s' "juno" "uni-6") k) id
          ≡ tree_json.get (index tree_json (Locked.get tree_json empty_file "juno" "uni-6") k) id)
prepare-IsPrepared_example =
    prepare-IsPrepared tree_json "juno" "uni-6" "default" tree_json-JsonLaws empty_file
      empty_file-IsStateFile

abbrev handle : DaemonState Unit
handle = record {
  json_state = full_access 0;
  deployment_id = "default";
  chain_data = juno;
  write_on_change = true;
}

abbrev open_file : JsonLockedState tree_json
open_file = record {
  json =
      tree_json.put tree_json.empty_object "juno"
        (tree_json.put tree_json.empty_object "uni-6" (fresh_chain tree_json "default"));
  path = "state.json";
}

abbrev open_owned : Owned tree_json
open_owned = record { locked = open_file; owners = 1 }

-- The handle is the owner of the one open file, which is written.
abbrev open_world : World tree_json
open_world = record {
  files = Locked.force_write tree_json open_file Dict.empty;
  locked_files = Dict.insert Dict.empty "state.json" tt;
  arcs = λ k. if eqb 0 k then some open_owned else none;
  next = 1;
}

handle-IsLive : IsLive tree_json handle open_world
unfolding index tree_json
handle-IsLive = record {
  number = 0;
  full = refl;
  owned = open_owned;
  arc = refl;
  prepared = record {
    is_state_file = record {
      root = refl;
      network = refl;
      chain = refl;
      addresses = refl;
      code_ids = refl;
    };
    state_of_chain = fresh_chain tree_json "default";
    present = refl;
  };
}

daemon_state-StateLaws_example :
    StateLaws (daemon_state tree_json not_found text_of handle) (IsLive tree_json handle)
daemon_state-StateLaws_example =
    daemon_state-StateLaws tree_json tree_json-JsonLaws not_found text_of handle refl

get_address-remove_address_example :
    (w' : World tree_json) × (remove_address tree_json handle open_world "counter" ≡ ok w')
    × (get_address tree_json not_found text_of handle w' "counter" ≡ panic)
get_address-remove_address_example =
    get_address-remove_address tree_json tree_json-JsonLaws not_found text_of handle open_world
      handle-IsLive "counter"

get-read_only_example :
    get tree_json not_found
      (record handle { json_state = read_only "state.json" })
      "code_ids"
      open_world
    ≡ get tree_json not_found handle "code_ids" open_world
unfolding handle-IsLive
get-read_only_example =
    get-read_only tree_json handle tree_json-JsonLaws not_found open_world handle-IsLive Dict.empty
      refl "code_ids"

drop-clone_example :
    ((drop tree_json handle (clone tree_json handle open_world)).0 ≡ ok tt)
    × ((drop tree_json handle (clone tree_json handle open_world)).1.arcs 0 ≡ some open_owned)
    × ((drop tree_json handle (clone tree_json handle open_world)).1.files ≡ open_world.files)
    × (Dict.get
          (drop tree_json handle (clone tree_json handle open_world)).1.locked_files
          "state.json"
        ≡ none)
unfolding handle-IsLive
drop-clone_example = drop-clone tree_json handle open_world handle-IsLive (omega arith)

abbrev empty_world : World tree_json
empty_world = record { files = Dict.empty; locked_files = Dict.empty; arcs = λ k. none; next = 0 }

new-IsLive_example :
    (w' : World tree_json) × (new tree_json any_path no_part no_part "state.json" juno "default"
        false true empty_world
      ≡ (ok handle, w'))
    × IsLive tree_json handle w'
    × (Dict.get w'.locked_files "state.json" ≡ some tt)
unfolding is_local Dict.get Dict.empty Locked.new tree_json
new-IsLive_example =
    new-IsLive tree_json any_path no_part no_part "state.json" juno "default" true "state.json" refl
      empty_world tree_json-JsonLaws refl empty_file refl empty_file-IsStateFile

-- The second handle is asked for another deployment, and without the flag.
new-excludes_example :
    let opened =
      new tree_json any_path no_part no_part "state.json" juno "default" false true empty_world in
    new tree_json any_path no_part no_part "state.json" juno "second" false false opened.1
    ≡ (err (state_already_locked "state.json"), opened.1)
unfolding is_local
new-excludes_example =
    new-excludes tree_json any_path no_part no_part "state.json" "state.json" juno juno "default"
      "second" true false "state.json" refl refl empty_world handle
      (ap (λ result. result.0) new-IsLive_example.1)
