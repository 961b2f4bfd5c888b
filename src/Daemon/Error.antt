-- ===== src/Daemon/Error.antt =====
-- cw-orch-daemon/src/error.rs
-- The payload of an error that a third-party or standard type carries is its message. `to_string` is
-- the `Display` that the `#[error]` attributes derive; a transparent error shows its payload.
pub mod Reasons
use Prim.Native.String.{◌++◌}
use cw_orchestrator.Common.{ℕ, String}

pub record Coin : Type 0 where
  pub amount : ℕ
  pub denom : String

pub data DaemonError : Type 0 where
  cosmwasm_std reqwest_error serde_json parse_int_error parse_float_error : String → DaemonError
  io_err secp256k1 var_error any_error status transport_error : String → DaemonError
  tendermint_error cw_env_error strip_prefix_path : String → DaemonError
  bech32_decode_err : DaemonError
  bech32_decode_expanded : String → ℕ → String → ℕ → DaemonError
  wrong_length phrasing missing_phrase implementation : DaemonError
  conversion : String → String → DaemonError
  shared_daemon_state : DaemonError
  err_report grpc_decode_error ed25519 decode_error hex_error bitcoin_bip32 : String → DaemonError
  conversion_secp256k1 conversion_ed25519 : DaemonError
  conversion_length conversion_length_ed25519_hex : ℕ → DaemonError
  conversion_prefix_ed25519 : ℕ → String → DaemonError
  no_gas_opts : DaemonError
  coin_parse_err_v coin_parse_err : String → DaemonError
  tx_result_error : ℕ → String → String → DaemonError
  gas_price_error : String → DaemonError
  tendermint_validator_set : ℕ → ℕ → DaemonError
  tx_not_found : String → ℕ → DaemonError
  unknown : DaemonError
  std_err : String → DaemonError
  not_implemented : DaemonError
  new_chain new_network : String → DaemonError
  cannot_connect_grpc : DaemonError
  tx_failed : ℕ → String → DaemonError
  grpc_list_is_empty missing_wasm_path : DaemonError
  builder_missing ibc_error insufficient_fee : String → DaemonError
  not_enough_balance : Coin → Coin → DaemonError
  state_read_only : String → DaemonError
  querier_need_runtime : DaemonError
  instantiate2_error : String → DaemonError
  open_file : String → String → DaemonError
  state_already_locked : String → DaemonError

-- `show` and `show_coin` are the `Display` of an integer and of a coin.
module _ (show : ℕ → String) (show_coin : Coin → String) where
  unfoldable pub to_string : DaemonError → String
  to_string (cosmwasm_std s) = s
  to_string (reqwest_error s) = "Reqwest HTTP(s) Error"
  to_string (serde_json s) = "JSON Conversion Error"
  to_string (parse_int_error s) = s
  to_string (parse_float_error s) = s
  to_string (io_err s) = s
  to_string (secp256k1 s) = s
  to_string (var_error s) = s
  to_string (any_error s) = s
  to_string (status s) = s
  to_string (transport_error s) = s
  to_string (tendermint_error s) = s
  to_string (cw_env_error s) = s
  to_string (strip_prefix_path s) = s
  to_string bech32_decode_err = "Bech32 Decode Error"
  to_string (bech32_decode_expanded p n q m) =
      "Bech32 Decode Error: Key Failed prefix "
      ++ (p ++ (" or length " ++ (show n ++ (" Wanted:" ++ (q ++ ("/" ++ show m))))))
  to_string wrong_length = "Mnemonic - Wrong length, it should be 24 words"
  to_string phrasing = "Mnemonic - Bad Phrase"
  to_string missing_phrase = "Mnemonic - Missing Phrase"
  to_string implementation = "Bad Implementation. Missing Component"
  to_string (conversion key source) = "Unable to convert into public key `" ++ (key ++ "`")
  to_string shared_daemon_state =
      "Can not augment daemon deployment after usage in more than one contract."
  to_string (err_report s) = s
  to_string (grpc_decode_error s) = s
  to_string (ed25519 s) = s
  to_string (decode_error s) = s
  to_string (hex_error s) = s
  to_string (bitcoin_bip32 s) = s
  to_string conversion_secp256k1 = "83 length-missing SECP256K1 prefix"
  to_string conversion_ed25519 = "82 length-missing ED25519 prefix"
  to_string (conversion_length n) = "Expected Key length of 82 or 83 length was " ++ show n
  to_string (conversion_length_ed25519_hex n) = "Expected Key length of 40 length was " ++ show n
  to_string (conversion_prefix_ed25519 n s) =
      "Expected ED25519 key of length 32 with a BECH32 ED25519 prefix of 5 chars - Len "
      ++ (show n ++ (" - Hex " ++ s))
  to_string no_gas_opts = "Can't call Transactions without some gas rules"
  to_string (coin_parse_err_v s) = "Can't parse `" ++ (s ++ "` into a coin")
  to_string (coin_parse_err s) = "Can't parse `" ++ (s ++ "` into a coin")
  to_string (tx_result_error n s t) =
      "TX submit returned `" ++ (show n ++ ("` - " ++ (s ++ (" '" ++ (t ++ "'")))))
  to_string (gas_price_error s) = "No price found for Gas using denom " ++ s
  to_string (tendermint_validator_set n m) =
      "Attempting to fetch validator set in parts, and failed Height mismatch "
      ++ (show n ++ (" " ++ show m))
  to_string (tx_not_found s n) =
      "Transaction " ++ (s ++ (" not found after " ++ (show n ++ " attempts")))
  to_string unknown = "unknown API error"
  to_string (std_err s) = "Generic Error " ++ s
  to_string not_implemented = "calling contract with unimplemented action"
  to_string (new_chain s) = "new chain detected, fill out the scaffold at " ++ s
  to_string (new_network s) = "new network detected, fill out the scaffold at " ++ s
  to_string cannot_connect_grpc = "Can not connect to any grpc endpoint that was provided."
  to_string (tx_failed code reason) = "tx failed: " ++ (reason ++ (" with code " ++ show code))
  to_string grpc_list_is_empty = "The list of grpc endpoints is empty"
  to_string missing_wasm_path = "no wasm path provided for contract."
  to_string (builder_missing s) = "daemon builder missing " ++ s
  to_string (ibc_error s) = "ibc error: " ++ s
  to_string (insufficient_fee s) = "insufficient fee, check gas price: " ++ s
  to_string (not_enough_balance e c) =
      "Not enough balance, expected " ++ (show_coin e ++ (", found " ++ show_coin c))
  to_string (state_read_only s) = "Can't set the daemon state, it's read-only " ++ s
  to_string querier_need_runtime =
      "You need to pass a runtime to the querier object to do synchronous queries. Use daemon.querier instead"
  to_string (instantiate2_error s) = s
  to_string (open_file s t) = "Error opening file " ++ (s ++ (",err: (" ++ (t ++ ")")))
  to_string (state_already_locked s) =
      "State file "
      ++ (s
          ++ " already locked, use another state file, clone daemon which holds the lock, or use `state` method of Builder")
