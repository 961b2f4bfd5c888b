-- ===== src/Core/Error.antt =====
-- packages/cw-orch-core/src/error.rs
-- The payload of an error that a third-party or standard type carries is its message.
use cw_orchestrator.Common.{String}

pub data CwEnvError : Type 0 where
  cosmwasm_error : String → CwEnvError
  code_id_not_in_store : String → CwEnvError
  addr_not_in_store : String → CwEnvError
  io_err : String → CwEnvError
  serde_json : String → CwEnvError
  envvar_error : String → CwEnvError
  parse_float_error : String → CwEnvError
  parse_int_error : String → CwEnvError
  parse_bool_error : String → CwEnvError
  instantiate2_address_error : String → CwEnvError
  not_wasm : CwEnvError
  wasm_not_found : String → String → CwEnvError
  not_implemented : CwEnvError
  any_error : String → CwEnvError
  std_err : String → CwEnvError
  env_var_not_present_named : String → CwEnvError
