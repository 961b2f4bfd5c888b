-- ===== src/Core/Conditional/Migrating.antt =====
-- When `migrate_if_needed` skips the migration, and what the combined method returns.
use cw_orchestrator.Common.{
  ℕ, String, ◌≡◌, ◌↔◌, false, none, some, List, ok, err, arith, Outcome-cases, inl, inr, ◌≤◌,
  length,
}
use cw_orchestrator.Core.Error.{CwEnvError}
use cw_orchestrator.Core.Contract.{Chain, Contract, address, code_id}
use cw_orchestrator.Core.Conditional.{
  WasmQuerier, is_running_latest, skip_or_migrate, migrate_if_needed, upload_if_needed,
  upload_and_migrate_if_needed,
}
use cw_orchestrator.Core.Conditional.Uploading.{
  IsUploaded, upload_if_needed-none_iff, upload_if_needed_of_IsUploaded,
}

module _ {W Source Msg Coin Salt R E : Type 0} (chain : Chain W Source Msg Coin Salt R E)
    (wasm : WasmQuerier W Source) (c : Contract) (source : Source) where
  -- The contract at the registered address runs the registered code.
  pub record IsRunning (w : W) : Type 0 where
    pub latest : ℕ
    pub at : String
    pub known : code_id chain c w ≡ ok latest
    pub found : address chain c w ≡ ok at
    pub runs : wasm.contract_code_id at w ≡ ok latest

  migrate-ne-none :
      (msg : Msg) (w : W) → (skip_or_migrate chain wasm c source msg false w).0 ≡ ok none → ⊥
  unfolding skip_or_migrate
  migrate-ne-none msg w h = ground arith

  migrate_of_IsRunning :
      (msg : Msg) (w : W) → IsRunning w → migrate_if_needed chain wasm c source msg w ≡ (ok none, w)
  unfolding migrate_if_needed is_running_latest
  migrate_of_IsRunning msg w r = rw (r.known, r.found, r.runs) (ground arith)

  IsRunning-of_none :
      (msg : Msg) (w : W) → (migrate_if_needed chain wasm c source msg w).0 ≡ ok none → IsRunning w
  unfolding migrate_if_needed is_running_latest
  IsRunning-of_none msg w h = elim (Outcome-cases (code_id chain c w)) [
    | inl (n, known) ↦ elim (Outcome-cases (address chain c w)) [
      | inl (a, found) ↦ elim (Outcome-cases (wasm.contract_code_id a w)) [
        | inl (m, runs) ↦
            let same : m ≡ n = ground (arith, migrate-ne-none msg w) in
            record { latest = n; at = a; known = known; found = found; runs = rw (← same) runs }
        | inr rest ↦ ground (arith, migrate-ne-none msg w)
      ]
      | inr rest ↦ ground (arith, migrate-ne-none msg w)
    ]
    | inr rest ↦ ground (arith, migrate-ne-none msg w)
  ]

  -- `migrate_if_needed` succeeds without a migration exactly if the registered contract runs the
  -- registered code.
  pub migrate_if_needed-none_iff :
      (msg : Msg) (w : W)
      → ((migrate_if_needed chain wasm c source msg w).0 ≡ ok none) ↔ IsRunning w
  migrate_if_needed-none_iff msg w =
      (IsRunning-of_none msg w, λ r. rw (migrate_of_IsRunning msg w r))

  -- A contract without a code id is not migrated: the error is that of the missing code id, and the
  -- state is as before.
  pub migrate_if_needed_unknown :
      (msg : Msg) (w : W) (e : CwEnvError)
      → code_id chain c w ≡ err e
      → migrate_if_needed chain wasm c source msg w ≡ (err e, w)
  unfolding migrate_if_needed is_running_latest
  migrate_if_needed_unknown msg w e unknown = rw (unknown, unknown)

  -- The combined method gives no list of transactions exactly if the code is uploaded and the
  -- contract runs it.
  pub upload_and_migrate-none_iff :
      (msg : Msg) (w : W)
      → ((upload_and_migrate_if_needed chain wasm c source msg w).0 ≡ ok none)
        ↔ (IsUploaded chain wasm c source w × IsRunning w)
  unfolding upload_and_migrate_if_needed
  upload_and_migrate-none_iff msg w = (
    λ h.
        let first : (upload_if_needed chain wasm c source w).0 ≡ ok none = ground arith in
        let u = (upload_if_needed-none_iff chain wasm c source w).0 first in
        let stay = upload_if_needed_of_IsUploaded chain wasm c source w u in
        let second : (migrate_if_needed chain wasm c source msg w).0 ≡ ok none =
          ground (arith, stay) in
        (u, IsRunning-of_none msg w second),
    λ both.
        rw (upload_if_needed_of_IsUploaded chain wasm c source w both.0)
          (rw (migrate_of_IsRunning msg w both.1)),
  )

  -- A list that the combined method gives holds one or two transactions.
  pub upload_and_migrate-length :
      (msg : Msg) (w : W) (txs : List R)
      → (upload_and_migrate_if_needed chain wasm c source msg w).0 ≡ ok (some txs)
      → (1 ≤ length txs) × (length txs ≤ 2)
  unfolding upload_and_migrate_if_needed
  upload_and_migrate-length msg w txs h = (ground arith, ground arith)
