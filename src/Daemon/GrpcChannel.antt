-- ===== src/Daemon/GrpcChannel.antt =====
-- cw-orch-daemon/src/channel.rs
-- The transport (tonic) and the node's client are operations on a network state `N`. Log lines are
-- left out.
pub mod Dialing
pub mod Tls
use cw_orchestrator.Common.{
  String, Bool, true, false, Option, none, some, List, [], ◌∷◌, ◌++◌, Outcome, ok, err, panic, ◌==◌,
  if◌then◌else◌, ◌||◌, last, unwrap,
}
use cw_orchestrator.Common.Exec.{Exec, pure, lift, throw, ◌>>=◌, ◌>>◌}
use cw_orchestrator.Common.Text.{contains}
use cw_orchestrator.Core.ChainInfo.{ChainInfo}
use cw_orchestrator.Daemon.Error.{DaemonError, grpc_list_is_empty, cannot_connect_grpc}

-- `Channel::builder` of an address, if it is one; `Endpoint::tls_config`; `ServiceClient::connect`,
-- whose failure is only tested; `get_node_info` with the name of the node's network, if it has one;
-- and `Endpoint::connect`.
pub record Transport (N Endpoint Client Channel : Type 0) : Type 0 where
  pub builder : String → Option Endpoint
  pub tls_config : Endpoint → Outcome DaemonError Endpoint
  pub client : Endpoint → Exec N DaemonError Client
  pub get_node_info : Client → Exec N DaemonError (Option String)
  pub connect : Endpoint → Exec N DaemonError Channel

module _ {N Endpoint Client Channel : Type 0} (t : Transport N Endpoint Client Channel) where
  kept : Outcome DaemonError Client → Outcome DaemonError (Option Client)
  kept (ok c) = ok (some c)
  kept (err e) = ok none
  kept panic = panic

  -- A failure to connect is no error yet.
  try_client : Endpoint → Exec N DaemonError (Option Client)
  unfolding kept
  try_client e n = let (r, n') = t.client e n in (kept r, n')

  -- The second attempt is made with TLS, where the address looks like it.
  retry_client : String → Endpoint → Option Client → Exec N DaemonError (Option Client)
  unfolding try_client
  retry_client address e (some c) = pure (some c)
  retry_client address e none =
      if contains address "https" || contains address "443"
      then (lift (t.tls_config e) >>= try_client)
      else pure none

  obtain : String → Endpoint → Exec N DaemonError (Option Client)
  unfolding retry_client
  obtain address e = try_client e >>= retry_client address e

  -- The channel is opened at the endpoint without TLS.
  verified : String → Endpoint → String → Exec N DaemonError (Option Channel)
  verified chain_id e network =
      if network == chain_id then (t.connect e >>= λ channel. pure (some channel)) else pure none

  verify : String → Endpoint → Option Client → Exec N DaemonError (Option Channel)
  unfolding verified
  verify chain_id e none = pure none
  verify chain_id e (some c) =
      t.get_node_info c >>= λ info. lift (unwrap info) >>= verified chain_id e

  -- One pass of the loop: the channel of an address that answers for the chain, or none where the
  -- loop continues.
  unfoldable pub dial : String → String → Exec N DaemonError (Option Channel)
  unfolding obtain verify
  dial chain_id address =
      lift (unwrap (t.builder address)) >>= λ e. obtain address e >>= verify chain_id e

  push : List Channel → Option Channel → List Channel
  push channels none = channels
  push channels (some c) = channels ++ (c ∷ [])

  unfoldable pub dial_all : String → List String → List Channel → Exec N DaemonError (List Channel)
  unfolding push
  dial_all chain_id [] channels = pure channels
  dial_all chain_id (address ∷ rest) channels =
      dial chain_id address >>= λ o. dial_all chain_id rest (push channels o)

  pop : Option Channel → Exec N DaemonError Channel
  pop none = throw cannot_connect_grpc
  pop (some c) = pure c

  -- `GrpcChannel::connect`
  unfoldable pub connect : List String → String → Exec N DaemonError Channel
  unfolding pop
  connect [] chain_id = throw grpc_list_is_empty
  connect (address ∷ rest) chain_id =
      dial_all chain_id (address ∷ rest) [] >>= λ channels. pop (last channels)

  -- `GrpcChannel::from_chain_info`
  unfoldable pub from_chain_info : {Price : Type 0} → ChainInfo Price → Exec N DaemonError Channel
  from_chain_info info = connect info.grpc_urls info.chain_id
