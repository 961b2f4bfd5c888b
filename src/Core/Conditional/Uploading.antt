-- ===== src/Core/Conditional/Uploading.antt =====
-- When `upload_if_needed` skips the upload, and that it skips it once the upload is done.
use cw_orchestrator.Common.{
  ℕ, String, ◌≡◌, ◌↔◌, refl, none, ok, ◌==◌, arith, eq_iff, eq_refl, if◌then◌else◌, ◌∙◌,
  Outcome-cases, inl, inr,
}
use cw_orchestrator.Core.Events.{uploaded_code_id}
use cw_orchestrator.Core.State.{StateLaws}
use cw_orchestrator.Core.Contract.{Chain, Contract, code_id, upload}
use cw_orchestrator.Core.Contract.Flow.{upload-registers}
use cw_orchestrator.Core.Conditional.{
  WasmQuerier, latest_is_uploaded, upload_some, upload_if_needed,
}

module _ {W Source Msg Coin Salt R E : Type 0} (chain : Chain W Source Msg Coin Salt R E)
    (wasm : WasmQuerier W Source) (c : Contract) (source : Source) where
  -- The chain knows the contract's code id, under the hash of the local file.
  pub record IsUploaded (w : W) : Type 0 where
    pub latest : ℕ
    pub hash : String
    pub known : code_id chain c w ≡ ok latest
    pub on_chain : wasm.code_id_hash latest w ≡ ok hash
    pub on_disk : wasm.local_hash source c w ≡ ok hash

  upload_some-ne-none : (w : W) → (upload_some chain wasm c source w).0 ≡ ok none → ⊥
  unfolding upload_some
  upload_some-ne-none w h = ground arith

  pub upload_if_needed_of_IsUploaded :
      (w : W) → IsUploaded w → upload_if_needed chain wasm c source w ≡ (ok none, w)
  unfolding upload_if_needed latest_is_uploaded
  upload_if_needed_of_IsUploaded w u = rw (u.known, u.on_chain, u.on_disk, eq_refl u.hash)

  IsUploaded-of_none : (w : W) → (upload_if_needed chain wasm c source w).0 ≡ ok none → IsUploaded w
  unfolding upload_if_needed latest_is_uploaded
  IsUploaded-of_none w h = elim (Outcome-cases (code_id chain c w)) [
    | inl (n, known) ↦ elim (Outcome-cases (wasm.code_id_hash n w)) [
      | inl (x, on_chain) ↦ elim (Outcome-cases (wasm.local_hash source c w)) [
        | inl (y, on_disk) ↦
            let same : y ≡ x = ground (arith, upload_some-ne-none w, eq_iff y x) in
            record {
              latest = n;
              hash = x;
              known = known;
              on_chain = on_chain;
              on_disk = rw (← same) on_disk;
            }
        | inr rest ↦ ground (arith, upload_some-ne-none w)
      ]
      | inr rest ↦ ground (arith, upload_some-ne-none w)
    ]
    | inr rest ↦ ground (arith, upload_some-ne-none w)
  ]

  -- `upload_if_needed` uploads nothing exactly if the contract has a code id and both hashes can be
  -- had and are equal.
  pub upload_if_needed-none_iff :
      (w : W) → ((upload_if_needed chain wasm c source w).0 ≡ ok none) ↔ IsUploaded w
  upload_if_needed-none_iff w = (IsUploaded-of_none w, λ u. rw (upload_if_needed_of_IsUploaded w u))

-- Over a state that keeps the contract of `StateInterface`: if the chain accepts the upload, its
-- response carries a code id, the state stays valid, and the node then reports the hash of the
-- local file for that code id, the next `upload_if_needed` uploads nothing and leaves the state as
-- it is.
pub upload_if_needed_again :
    {W Source Msg Coin Salt R E : Type 0} (chain : Chain W Source Msg Coin Salt R E)
    {IsValid : W → Type 0} (wasm : WasmQuerier W Source) (c : Contract) (source : Source) (w : W)
    (resp : R) (n : ℕ) (hash : String)
    → StateLaws chain.state IsValid
    → (chain.upload_tx source w).0 ≡ ok resp
    → uploaded_code_id chain.response chain.parsers resp ≡ ok n
    → IsValid (chain.upload_tx source w).1
    → wasm.code_id_hash n (upload chain c source w).1 ≡ ok hash
    → wasm.local_hash source c (upload chain c source w).1 ≡ ok hash
    → upload_if_needed chain wasm c source (upload chain c source w).1
      ≡ (ok none, (upload chain c source w).1)
upload_if_needed_again chain wasm c source w resp n hash laws sent parsed v on_chain on_disk =
    let (_, here, _) = upload-registers chain laws c c source w resp n sent parsed v in
    let same : (if c.id == c.id then ok n else code_id chain c (chain.upload_tx source w).1)
        ≡ ok n =
      rw (eq_refl c.id) refl in
    let known = here ∙ same in
    upload_if_needed_of_IsUploaded chain wasm c source (upload chain c source w).1
      (record { latest = n; hash = hash; known = known; on_chain = on_chain; on_disk = on_disk })
