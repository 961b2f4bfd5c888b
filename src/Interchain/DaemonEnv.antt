-- ===== src/Interchain/DaemonEnv.antt =====
-- packages/interchain/interchain-daemon/src/interchain_env.rs
-- The search for the transactions that created a channel, and the chains of the environment. A daemon
-- is a type `D`; sleeping changes nothing here, and queries that are joined run one after the other.
pub mod Searching
use Prim.Native.String
use cw_orchestrator.Common.{
  ℕ, zero, suc, String, Bool, true, false, Option, none, some, List, [], ◌∷◌, Map, Outcome, ok, err,
  panic, unwrap, map_err, ok_or, first,
}
use cw_orchestrator.Common.Dict
use cw_orchestrator.Common.Exec.{Exec, pure, lift, throw, ◌>>=◌, ◌>>◌, map_error}
use cw_orchestrator.Daemon.Error.{DaemonError}
use cw_orchestrator.Daemon.Node.{Request, find_tx_by_events}
use cw_orchestrator.Interchain.Channel.{IbcPort, InterchainChannel, get_ordered_ports_from}
use cw_orchestrator.Interchain.Environment.{ChannelCreation}
use cw_orchestrator.Interchain.Error.{InterchainError}
use cw_orchestrator.Interchain.Inspector.{
  InterchainDaemonError, daemon, interchain_error, daemon_not_found,
  channel_creation_events_not_found,
}

-- The daemons of `DaemonInterchainEnv`, by the identifiers of their chains.
pub record DaemonInterchainEnv (D : Type 0) : Type 0 where
  pub daemons : Map D

module _ {D : Type 0} (chain_id_of : D → String) where
  insert_all : Map D → List D → Map D
  insert_all m [] = m
  insert_all m (d ∷ ds) = insert_all (Dict.insert m (chain_id_of d) d) ds

  -- `add_daemons`; the separate logs are left out.
  unfoldable pub add_daemons : DaemonInterchainEnv D → List D → DaemonInterchainEnv D
  unfolding insert_all
  add_daemons env daemons = record { daemons = insert_all env.daemons daemons }

  -- `from_daemons` takes the runtime of the first daemon.
  unfoldable pub from_daemons : {E : Type 0} → List D → Outcome E (DaemonInterchainEnv D)
  from_daemons [] = panic
  from_daemons (d ∷ ds) = ok (add_daemons (record { daemons = Dict.empty }) (d ∷ ds))

unfoldable pub get_chain :
    {C D : Type 0} → DaemonInterchainEnv D → String → Outcome (InterchainDaemonError C) D
get_chain env chain_id = ok_or (Dict.get env.daemons chain_id) (daemon_not_found chain_id)

-- The queries of a node: the transactions under some events, newest first.
pub record Creations (N C R : Type 0) : Type 0 where
  pub get_txs : C → List String → Request N (List R)
  pub debug_events : List String → String
  pub max_tx_query_retries : ℕ

-- The first attempt and four more.
abbrev pub attempts : ℕ
attempts = 5

module _ {N C R : Type 0} (q : Creations N C R) where
  unfoldable pub find_one_tx_by_events : IbcPort C → List String → Exec N DaemonError (Option R)
  find_one_tx_by_events port events =
      find_tx_by_events (q.get_txs port.chain events) (q.debug_events events) q.max_tx_query_retries
      >>= λ txs. pure (first txs)

  condition : String → String → String → String
  condition event key value = String.◌++◌ event (String.◌++◌ key (String.◌++◌ value "'"))

  -- The search on `here` for an event that opens a channel between two ports; the connection is that of
  -- `here`, and missing it panics.
  opening : String → IbcPort C → IbcPort C → Exec N (InterchainDaemonError C) (Option R)
  unfolding condition
  opening event here there = do
    connection_id ← lift (unwrap here.connection_id)
    map_error daemon (
        find_one_tx_by_events here (
          condition event ".port_id='" here.port
          ∷ condition event ".counterparty_port_id='" there.port
          ∷ condition event ".connection_id='" connection_id
          ∷ []))

  ends : String → InterchainChannel C → Exec N (InterchainDaemonError C) (IbcPort C × IbcPort C)
  ends from channel = lift (map_err interchain_error (get_ordered_ports_from channel from))

  on_source : String → String → InterchainChannel C → Exec N (InterchainDaemonError C) (Option R)
  unfolding ends opening
  on_source event from channel = ends from channel >>= λ ports. opening event ports.0 ports.1

  on_destination :
      String → String → InterchainChannel C → Exec N (InterchainDaemonError C) (Option R)
  unfolding ends opening
  on_destination event from channel = ends from channel >>= λ ports. opening event ports.1 ports.0

  unfoldable pub get_channel_creation_init :
      String → InterchainChannel C → Exec N (InterchainDaemonError C) (Option R)
  unfolding on_source
  get_channel_creation_init = on_source "channel_open_init"

  unfoldable pub get_channel_creation_try :
      String → InterchainChannel C → Exec N (InterchainDaemonError C) (Option R)
  unfolding on_destination
  get_channel_creation_try = on_destination "channel_open_try"

  unfoldable pub get_channel_creation_ack :
      String → InterchainChannel C → Exec N (InterchainDaemonError C) (Option R)
  unfolding on_source
  get_channel_creation_ack = on_source "channel_open_ack"

  unfoldable pub get_channel_creation_confirm :
      String → InterchainChannel C → Exec N (InterchainDaemonError C) (Option R)
  unfolding on_destination
  get_channel_creation_confirm = on_destination "channel_open_confirm"

  unfoldable pub get_last_channel_creation :
      String → InterchainChannel C → Exec N (InterchainDaemonError C) (ChannelCreation (Option R))
  get_last_channel_creation from channel = do
    init ← get_channel_creation_init from channel
    tried ← get_channel_creation_try from channel
    ack ← get_channel_creation_ack from channel
    confirm ← get_channel_creation_confirm from channel
    pure (record { init = init; try_ = tried; ack = ack; confirm = confirm })

  -- The four transactions, if all are there.
  complete : Option R → Option R → Option R → Option R → Option (ChannelCreation R)
  complete (some a) (some b) (some c) (some d) =
      some (record { init = a; try_ = b; ack = c; confirm = d })
  complete _ _ _ _ = none

  unfoldable pub all_found : ChannelCreation (Option R) → Option (ChannelCreation R)
  unfolding complete
  all_found c = complete c.init c.try_ c.ack c.confirm

  found_or :
      Option (ChannelCreation R)
      → Exec N (InterchainDaemonError C) (ChannelCreation R)
      → Exec N (InterchainDaemonError C) (ChannelCreation R)
  found_or (some creation) again = pure creation
  found_or none again = again

  -- An error of the search ends the loop.
  one_round :
      InterchainDaemonError C
      → Exec N (InterchainDaemonError C) (ChannelCreation R)
      → Outcome (InterchainDaemonError C) (ChannelCreation (Option R))
      → Exec N (InterchainDaemonError C) (ChannelCreation R)
  unfolding found_or
  one_round not_found again (ok c) = found_or (all_found c) again
  one_round not_found again (err e) = throw not_found
  one_round not_found again panic = lift panic

  -- The loop of `find_channel_creation_tx`, on the rounds that are left.
  unfoldable pub search_creation :
      ℕ → String → InterchainChannel C → Exec N (InterchainDaemonError C) (ChannelCreation R)
  unfolding one_round
  search_creation zero from channel n = (err (channel_creation_events_not_found from channel), n)
  search_creation (suc rounds) from channel n =
      let (r, n') = get_last_channel_creation from channel n in
      one_round (channel_creation_events_not_found from channel)
        (search_creation rounds from channel) r n'

  unfoldable pub find_channel_creation_tx :
      String → InterchainChannel C → Exec N (InterchainDaemonError C) (ChannelCreation R)
  find_channel_creation_tx = search_creation attempts
