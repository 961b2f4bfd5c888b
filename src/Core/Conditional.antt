-- ===== src/Core/Conditional.antt =====
-- packages/cw-orch-core/src/contract/interface_traits.rs: `ConditionalUpload` and
-- `ConditionalMigrate`. The queries of `WasmQuerier` are a record of operations on the world, their
-- errors converted.
pub mod Uploading
pub mod Migrating
use cw_orchestrator.Common.{
  ℕ, String, Bool, true, false, Option, none, some, List, [], ◌∷◌, ◌++◌, Outcome, ok, err, panic,
  eqb, ◌==◌,
}
use cw_orchestrator.Common.Exec.{Exec, pure, lift, gets, ◌>>=◌}
use cw_orchestrator.Core.Error.{CwEnvError}
use cw_orchestrator.Core.Contract.{Chain, Contract, address, code_id, upload, migrate}

-- `code_id_hash` and `local_hash` give a checksum, `contract_info` the code id that a contract runs.
pub record WasmQuerier (W Source : Type 0) : Type 0 where
  pub code_id_hash : ℕ → W → Outcome CwEnvError String
  pub local_hash : Source → Contract → W → Outcome CwEnvError String
  pub contract_code_id : String → W → Outcome CwEnvError ℕ

module _ {W Source Msg Coin Salt R E : Type 0} (chain : Chain W Source Msg Coin Salt R E)
    (wasm : WasmQuerier W Source) (c : Contract) (source : Source) where
  compare_hashes : Outcome CwEnvError ℕ → Exec W CwEnvError Bool
  compare_hashes (ok latest) = do
    on_chain_hash ← gets (wasm.code_id_hash latest)
    hash ← gets (wasm.local_hash source c)
    pure (hash == on_chain_hash)
  compare_hashes (err _) = pure false
  compare_hashes panic = lift panic

  -- `let Some(id) = self.code_id().ok() else { return Ok(false) }`, then the two hashes
  unfoldable pub latest_is_uploaded : Exec W CwEnvError Bool
  unfolding compare_hashes
  latest_is_uploaded w = compare_hashes (code_id chain c w) w

  upload_some : Exec W CwEnvError (Option R)
  upload_some = do resp ← upload chain c source; pure (some resp)

  -- Only `Ok(true)` skips the upload: a failed query uploads.
  skip_or_upload : Outcome CwEnvError Bool → Exec W CwEnvError (Option R)
  unfolding upload_some
  skip_or_upload (ok true) = pure none
  skip_or_upload (ok false) = upload_some
  skip_or_upload (err e) = upload_some
  skip_or_upload panic = lift panic

  unfoldable pub upload_if_needed : Exec W CwEnvError (Option R)
  unfolding skip_or_upload
  upload_if_needed w = let (latest, w') = latest_is_uploaded w in skip_or_upload latest w'

  compare_code_ids : Outcome CwEnvError ℕ → Exec W CwEnvError Bool
  compare_code_ids (ok latest) = do
    a ← gets (address chain c)
    running ← gets (wasm.contract_code_id a)
    pure (eqb latest running)
  compare_code_ids (err _) = pure false
  compare_code_ids panic = lift panic

  unfoldable pub is_running_latest : Exec W CwEnvError Bool
  unfolding compare_code_ids
  is_running_latest w = compare_code_ids (code_id chain c w) w

  skip_or_migrate : Msg → Bool → Exec W CwEnvError (Option R)
  skip_or_migrate msg true = pure none
  skip_or_migrate msg false = do
    code ← gets (code_id chain c)
    resp ← migrate chain c msg code
    pure (some resp)

  unfoldable pub migrate_if_needed : Msg → Exec W CwEnvError (Option R)
  unfolding skip_or_migrate
  migrate_if_needed msg = do latest ← is_running_latest; skip_or_migrate msg latest

  -- `if let Some(tx) = ... { txs.push(tx) }`
  abbrev pub push : Option R → List R → List R
  push none txs = txs
  push (some tx) txs = txs ++ tx ∷ []

  abbrev pub some_if_any : List R → Option (List R)
  some_if_any [] = none
  some_if_any (tx ∷ txs) = some (tx ∷ txs)

  unfoldable pub upload_and_migrate_if_needed : Msg → Exec W CwEnvError (Option (List R))
  upload_and_migrate_if_needed msg = do
    uploaded ← upload_if_needed
    migrated ← migrate_if_needed msg
    pure (some_if_any (push migrated (push uploaded [])))
