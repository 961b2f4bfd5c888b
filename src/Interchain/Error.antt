-- ===== src/Interchain/Error.antt =====
-- packages/interchain/interchain-core/src/error.rs
-- The payload of an error that a third-party type carries is its message; a `Binary` is a text.
use cw_orchestrator.Common.{String}
use cw_orchestrator.Core.Error.{CwEnvError}
use cw_orchestrator.Core.Events.{StdError}

pub data InterchainError : Type 0 where
  generic_error : String → InterchainError
  cw_orch_error : CwEnvError → InterchainError
  std_error : StdError → InterchainError
  validation_error ics_channel : String → InterchainError
  hermes_container_not_found : InterchainError
  daemon_not_found chain_config_not_found already_registered chain_not_found :
      String → InterchainError
  packet_timeout : InterchainError
  ack_decoding_failed : String → String → InterchainError
  no_matching_packet_found remaining_packets no_packets_found : InterchainError
  failed_ack_received : String → InterchainError
