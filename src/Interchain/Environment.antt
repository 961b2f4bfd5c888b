-- ===== src/Interchain/Environment.antt =====
-- The trait `InterchainEnv` in packages/interchain/interchain-core/src/env.rs
-- An implementation is a record of operations on a world `W`; the methods that the trait itself
-- provides are defined over it. Port and channel identifiers are texts.
pub mod Creation
use Prim.Native.String
use cw_orchestrator.Common.{
  String, Option, none, some, Outcome, ok, err, panic, unwrap, map_err, ◌==◌, if◌then◌else◌,
}
use cw_orchestrator.Common.Exec.{Exec, pure, lift, gets, ◌>>=◌, ◌>>◌, map_error}
use cw_orchestrator.Core.Events.{IndexResponse}
use cw_orchestrator.Interchain.Analysis.{TxAnalysis, Decoders, into_result}
use cw_orchestrator.Interchain.Channel.{IbcPort, InterchainChannel, new, get_mut_ordered_ports_from}
use cw_orchestrator.Interchain.Error.{InterchainError, std_error}

-- `ChannelCreation<A>`; `try_` is the field `try`.
pub record ChannelCreation (A : Type 0) : Type 0 where
  pub init : A
  pub try_ : A
  pub ack : A
  pub confirm : A

pub record ChannelCreationTransactionsResult (R : Type 0) : Type 0 where
  pub src_channel_id : String
  pub dst_channel_id : String
  pub channel_creation_txs : ChannelCreation R

pub record ChannelCreationResult (H R : Type 0) : Type 0 where
  pub interchain_channel : InterchainChannel H
  pub channel_creation_txs : ChannelCreation (TxAnalysis R)

pub record InternalChannelCreationResult (Created : Type 0) : Type 0 where
  pub created : Created
  pub src_connection_id : String

-- `handler_of` is `get_chain` with the handler of the chain it gives. `get_channel_creation_txs` gives
-- the channel back, which it may change.
pub record InterchainEnv (W H R Created Order E : Type 0) : Type 0 where
  pub handler_of : String → W → Outcome E H
  pub internal_create_channel :
      String
      → String
      → String
      → String
      → String
      → Option Order
      → Exec W E (InternalChannelCreationResult Created)
  pub get_channel_creation_txs :
      String
      → InterchainChannel H
      → Created
      → Exec W E (InterchainChannel H × ChannelCreationTransactionsResult R)
  pub await_packets : String → R → Exec W E (TxAnalysis R)
  pub into : E → InterchainError
  pub response : IndexResponse R

module _ {H : Type 0} where
  -- The port of a chain before its channel is known.
  abbrev pub port_on : String → Option String → String → H → IbcPort H
  port_on chain_id connection_id port handler = record {
    chain_id = chain_id;
    connection_id = connection_id;
    port = port;
    channel = none;
    chain = handler;
  }

  -- The three assignments at the end of `create_channel`.
  abbrev pub name_ends : String → String → String → IbcPort H × IbcPort H → IbcPort H × IbcPort H
  name_ends src_channel dst_channel dst_connection ports = (
    record ports.0 { channel = some src_channel },
    record ports.1 { connection_id = some dst_connection; channel = some dst_channel },
  )

module _ {W H R Created Order E : Type 0} (env : InterchainEnv W H R Created Order E) where
  abbrev pub into_error : {A : Type 0} → Exec W E A → Exec W InterchainError A
  into_error m = map_error env.into m

  await : String → R → Exec W InterchainError (TxAnalysis R)
  await chain_id tx = into_error (env.await_packets chain_id tx)

  -- The packets of the four transactions, from the chains that ran them.
  await_creation :
      String → String → ChannelCreation R → Exec W InterchainError (ChannelCreation (TxAnalysis R))
  unfolding await
  await_creation src_chain dst_chain txs = do
    init ← await src_chain txs.init
    tried ← await dst_chain txs.try_
    ack ← await src_chain txs.ack
    confirm ← await dst_chain txs.confirm
    pure (record { init = init; try_ = tried; ack = ack; confirm = confirm })

  unfoldable pub connection_of : R → Outcome InterchainError String
  connection_of tx =
      map_err std_error (env.response.attr_value tx "channel_open_try" "connection_id")

  -- The rest of `create_channel`, once the transactions of the creation are known.
  finish_channel :
      String
      → String
      → InterchainChannel H × ChannelCreationTransactionsResult R
      → Exec W InterchainError (ChannelCreationResult H R)
  unfolding await_creation connection_of
  finish_channel src_chain dst_chain (channel, found) = do
    dst_connection_id ← lift (connection_of found.channel_creation_txs.try_)
    packets ← await_creation src_chain dst_chain found.channel_creation_txs
    named ← lift (
        get_mut_ordered_ports_from channel src_chain
          (name_ends found.src_channel_id found.dst_channel_id dst_connection_id))
    pure (record { interchain_channel = named; channel_creation_txs = packets })

  unfoldable pub create_channel :
      String
      → String
      → String
      → String
      → String
      → Option Order
      → Exec W InterchainError (ChannelCreationResult H R)
  unfolding finish_channel
  create_channel src_chain dst_chain src_port dst_port version order = do
    internal ←
        into_error (env.internal_create_channel src_chain dst_chain src_port dst_port version order)
    src ← into_error (gets (env.handler_of src_chain))
    dst ← into_error (gets (env.handler_of dst_chain))
    found ← into_error (
        env.get_channel_creation_txs src_chain
          (new (port_on src_chain (some internal.src_connection_id) src_port src)
            (port_on dst_chain none dst_port dst))
          internal.created)
    finish_channel src_chain dst_chain found

  -- `contract_port`: `addr_str` is the address of the contract and `parse` reads a port identifier.
  unfoldable pub contract_port :
      {A : Type 0} → (String → Option String) → Outcome A String → Outcome InterchainError String
  contract_port parse (ok address) = unwrap (parse (String.◌++◌ "wasm." address))
  contract_port parse (err e) = panic
  contract_port parse panic = panic

  -- `create_contract_channel`, of two contracts by their chains and addresses.
  unfoldable pub create_contract_channel :
      {A : Type 0}
      → (String → Option String)
      → String × Outcome A String
      → String × Outcome A String
      → String
      → Option Order
      → Exec W InterchainError (ChannelCreationResult H R)
  create_contract_channel parse src dst version order = do
    src_port ← lift (contract_port parse src.1)
    dst_port ← lift (contract_port parse dst.1)
    create_channel src.0 dst.0 src_port dst_port version order

  unfoldable pub await_and_check_packets : Decoders → String → R → Exec W InterchainError Unit
  unfolding await
  await_and_check_packets d chain_id tx = await chain_id tx >>= λ a. lift (into_result d a)
