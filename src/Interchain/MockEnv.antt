-- ===== src/Interchain/MockEnv.antt =====
-- packages/interchain/interchain-mock/src/interchain.rs and error.rs beside it
-- The mock chains are behind references that every clone shares: `A` names one, and what they hold is
-- the world `W` of the operations of cw-multi-test. Log lines are left out.
pub mod Registered
pub mod Packets
use cw_orchestrator.Common.{
  ℕ, String, Bool, true, false, not, Option, none, some, List, [], ◌∷◌, Map, Outcome, ok, err,
  panic, unwrap, map_err, ok_or, ◌==◌, if◌then◌else◌, keep, map, flat_map, first, member, ◌&&◌,
}
use cw_orchestrator.Common.Dict
use cw_orchestrator.Common.Exec.{Exec, pure, lift, throw, gets, ◌>>=◌, ◌>>◌, map_error}
use cw_orchestrator.Core.Events.{Attribute, Event, AppResponse, StdError, values}
use cw_orchestrator.Interchain.Analysis.{TxId, TxAnalysis}
use cw_orchestrator.Interchain.Channel.{InterchainChannel}
use cw_orchestrator.Interchain.Environment.{
  ChannelCreation, ChannelCreationTransactionsResult, InternalChannelCreationResult,
}
use cw_orchestrator.Interchain.Error.{InterchainError}
use cw_orchestrator.Interchain.Following.{
  IbcPacketInfo, SimpleAnalysis, PacketOutcome, Follower, Stop, timeout, success,
}
use cw_orchestrator.Interchain.Following

-- The payload of an error that a third-party type carries is its message.
pub data InterchainMockError : Type 0 where
  interchain_error : InterchainError → InterchainMockError
  any : String → InterchainMockError
  std_error : StdError → InterchainMockError
  validation_error ics_channel already_registered mock_not_found : String → InterchainMockError

-- `MockInterchainEnvBase`
pub record MockInterchainEnv (A : Type 0) : Type 0 where
  pub mocks : Map A

-- What the relayer of cw-multi-test gives for a packet.
pub data RelayingResult : Type 0 where
  timeout_relayed : AppResponse → RelayingResult
  acknowledgement : AppResponse → String → RelayingResult

pub record RelayPacketResult : Type 0 where
  pub receive_tx : AppResponse
  pub result : RelayingResult

pub record RelayerChannel : Type 0 where
  pub src_channel : String
  pub dst_channel : String
  pub txs : ChannelCreation AppResponse

-- cw-multi-test: the chain id of a mock, the connections of a chain to another one with their
-- identifiers, the chain at the other end of a connection, and the relayer. The parsers are those of the
-- identifiers.
pub record MultiTest (W A Order : Type 0) : Type 0 where
  pub chain_connections : A → String → Exec W InterchainMockError (List String)
  pub connected_chain : A → String → Exec W InterchainMockError String
  pub create_connection : A → A → Exec W InterchainMockError (String × String)
  pub create_channel :
      A → A → String → String → String → String → Order → Exec W InterchainMockError RelayerChannel
  pub relay_packet : A → A → String → String → ℕ → Exec W InterchainMockError RelayPacketResult
  pub unordered : Order
  pub parse_port : String → Outcome String String
  pub parse_channel : String → Outcome String String
  pub parse_sequence : String → Outcome String ℕ

-- `uniq.insert(x.0)` for each chain in turn
all_new : List String → List (String × String) → Bool
all_new seen [] = true
all_new seen ((chain_id, sender) ∷ chains) =
    not (member chain_id seen) && all_new (chain_id ∷ seen) chains

module _ {A : Type 0} where
  extend : Map A → List (String × A) → Map A
  extend m [] = m
  extend m ((chain_id, mock) ∷ rest) = extend (Dict.insert m chain_id mock) rest

  -- `from_mocks`; `chain_id_of` is `block_info().unwrap().chain_id`.
  unfoldable pub from_mocks : (A → String) → List A → MockInterchainEnv A
  unfolding extend
  from_mocks chain_id_of chains = record {
    mocks = extend Dict.empty (map (λ m. (chain_id_of m, m)) chains);
  }

  unfoldable pub add_mocks : (A → String) → MockInterchainEnv A → List A → MockInterchainEnv A
  unfolding extend
  add_mocks chain_id_of env mocks = record {
    mocks = extend env.mocks (map (λ m. (chain_id_of m, m)) mocks);
  }

  -- `MockInterchainEnvBase::<MockApi>::new`; `make` is `Mock::new_with_chain_id`.
  unfoldable pub new :
      {E : Type 0}
      → (String → String → A)
      → List (String × String)
      → Outcome E (MockInterchainEnv A)
  unfolding extend all_new
  new make chains =
      if all_new [] chains
      then ok (record { mocks = extend Dict.empty (map (λ c. (c.0, make c.1 c.0)) chains) })
      else panic

  -- `MockInterchainEnvBase::<MockApiBech32>::new`, which does not look for equal chain ids.
  unfoldable pub new_bech32 : (String → String → A) → List (String × String) → MockInterchainEnv A
  unfolding extend
  new_bech32 make chains = record {
    mocks = extend Dict.empty (map (λ c. (c.0, make c.1 c.0)) chains);
  }

  unfoldable pub get_chain : MockInterchainEnv A → String → Outcome InterchainMockError A
  get_chain env chain_id = ok_or (Dict.get env.mocks chain_id) (mock_not_found chain_id)

module _ {W A Order : Type 0} (t : MultiTest W A Order) (env : MockInterchainEnv A) where
  connection_or_new : A → A → Option String → Exec W InterchainMockError String
  connection_or_new src dst (some connection_id) = pure connection_id
  connection_or_new src dst none = t.create_connection src dst >>= λ connections. pure connections.0

  abbrev order_or : Option Order → Order
  order_or none = t.unordered
  order_or (some order) = order

  create_between :
      String
      → String
      → String
      → String
      → String
      → Option Order
      → Exec W InterchainMockError (InternalChannelCreationResult RelayerChannel)
  unfolding connection_or_new
  create_between src_chain dst_chain src_port dst_port version order = do
    src ← lift (get_chain env src_chain)
    dst ← lift (get_chain env dst_chain)
    connections ← t.chain_connections src dst_chain
    connection_id ← connection_or_new src dst (first connections)
    created ← t.create_channel src dst connection_id src_port dst_port version (order_or order)
    pure (record { created = created; src_connection_id = connection_id })

  -- `_internal_create_channel`
  unfoldable pub internal_create_channel :
      String
      → String
      → String
      → String
      → String
      → Option Order
      → Exec W InterchainMockError (InternalChannelCreationResult RelayerChannel)
  unfolding create_between
  internal_create_channel src_chain dst_chain src_port dst_port version order =
      if src_chain == dst_chain
      then lift panic
      else create_between src_chain dst_chain src_port dst_port version order

  unfoldable pub get_channel_creation_txs :
      RelayerChannel → Outcome InterchainMockError (ChannelCreationTransactionsResult AppResponse)
  get_channel_creation_txs created =
      bound (map_err validation_error (t.parse_channel created.src_channel)) (λ src.
        bound (map_err validation_error (t.parse_channel created.dst_channel)) (λ dst. ok (record {
          src_channel_id = src;
          dst_channel_id = dst;
          channel_creation_txs = created.txs;
        })))
    where
      bound :
          {X Y : Type 0}
          → Outcome InterchainMockError X
          → (X → Outcome InterchainMockError Y)
          → Outcome InterchainMockError Y
      bound (ok x) f = f x
      bound (err e) f = err e
      bound panic f = panic
