-- ===== src/Daemon/Json/Locked.antt =====
-- cw-orch-daemon/src/json_lock.rs
-- The lock of the operating system on the file has no state here: whether it is granted is an
-- argument of `new`. The files are what they hold, by path.
pub mod Preparing
pub mod Writing
use cw_orchestrator.Common.{
  ℕ, String, Bool, true, false, Option, none, some, Outcome, ok, err, panic, ◌>>=◌, if◌then◌else◌,
  if_none, Map, map_err, unwrap,
}
use cw_orchestrator.Common.Dict
use cw_orchestrator.Common.Exec.{Exec}
use cw_orchestrator.Daemon.Error.{DaemonError, open_file, serde_json}
use cw_orchestrator.Daemon.Json.{Json, index, assign, assign_in}

module _ (j : Json) where
  pub record JsonLockedState : Type 0 where
    pub json : j.Value
    pub path : String

  abbrev pub Files : Type 0
  Files = Map j.Text

  text_of : Option j.Text → j.Text
  text_of none = j.no_text
  text_of (some text) = text

  contents : Outcome String j.Value → Outcome DaemonError j.Value
  contents (ok v) = ok v
  contents (err e) = panic
  contents panic = panic

  opened : String → j.Text → Outcome DaemonError j.Value
  unfolding contents
  opened path text = if j.is_empty text then ok j.empty_object else contents (j.parse text)

  created : Files → String → Files
  created files path = if_none (Dict.get files path) (Dict.insert files path j.no_text) files

  -- `JsonLockedState::new`: a missing file is created empty, and an empty one holds an empty object.
  unfoldable pub new : Bool → String → Exec Files DaemonError JsonLockedState
  unfolding opened text_of created
  new lockable path files =
      if lockable
      then (
        opened path (text_of (Dict.get files path)) >>= λ v. ok (record { json = v; path = path }),
        created files path,
      )
      else (panic, files)

  prepare_network : j.Value → String → Outcome DaemonError j.Value
  prepare_network json network_id =
      if_none (j.get json network_id) (assign j json network_id j.empty_object) (ok json)

  prepare_chain : j.Value → String → String → j.Value → Outcome DaemonError j.Value
  prepare_chain json chain_id network_id fresh =
      if_none (j.get (index j json network_id) chain_id)
        (assign_in j json network_id chain_id fresh) (ok json)

  -- `json!({deploy_id: {}, "code_ids": {}})`
  abbrev pub fresh_chain : String → j.Value
  fresh_chain deploy_id =
      j.put (j.put j.empty_object deploy_id j.empty_object) "code_ids" j.empty_object

  -- `JsonLockedState::prepare`
  unfoldable pub prepare :
      JsonLockedState → String → String → String → Outcome DaemonError JsonLockedState
  unfolding prepare_network prepare_chain
  prepare s chain_id network_id deploy_id = do
    json ← prepare_network s.json network_id
    json' ← prepare_chain json chain_id network_id (fresh_chain deploy_id)
    ok (record s { json = json' })

  unfoldable pub state : JsonLockedState → j.Value
  state s = s.json

  -- `JsonLockedState::get`
  unfoldable pub get : JsonLockedState → String → String → j.Value
  get s network_id chain_id = index j (index j s.json network_id) chain_id

  -- A change through the reference that `JsonLockedState::get_mut` gives.
  unfoldable pub get_mut :
      JsonLockedState
      → String
      → String
      → (j.Value → Outcome DaemonError j.Value)
      → Outcome DaemonError JsonLockedState
  get_mut s network_id chain_id change = do
    v ← unwrap (j.get (index j s.json network_id) chain_id)
    v' ← change v
    json ← assign_in j s.json network_id chain_id v'
    ok (record s { json = json })

  -- `JsonLockedState::force_write`
  unfoldable pub force_write : JsonLockedState → Files → Files
  force_write s files = Dict.insert files s.path (j.print s.json)

  abbrev file_read : Option j.Text → DaemonError → Outcome DaemonError j.Value
  file_read none missing = err missing
  file_read (some text) missing = map_err serde_json (j.parse text)

  -- The function `read`. The message of the operating system is an argument.
  unfoldable pub read : (String → String) → Files → String → Outcome DaemonError j.Value
  read io_error files filename =
      file_read (Dict.get files filename) (open_file filename (io_error filename))
