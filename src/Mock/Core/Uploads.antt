-- ===== src/Mock/Core/Uploads.antt =====
-- What an upload to a mock and an instantiation from it register, in packages/cw-orch-mock/src/core.rs over
-- packages/cw-orch-core/src/contract/contract_instance.rs.
use cw_orchestrator.Common.{
  ℕ, String, ◌≡◌, refl, ap, arith, eq_refl, Option, List, some, Outcome, ok, map_ok, ◌==◌,
  if◌then◌else◌,
}
use cw_orchestrator.Core.Error.{CwEnvError}
use cw_orchestrator.Core.Events.{
  app_response, AppResponse, instantiated_contract_address, Parsers, uploaded_code_id,
  event_attr_value, first_value, search_event,
}
use cw_orchestrator.Core.State.{StateInterface, StateLaws, Wrote}
use cw_orchestrator.Core.Contract.{Contract, address, code_id, coins_or_none}
use cw_orchestrator.Core.Contract as Contracts
use cw_orchestrator.Mock.Core.{
  MultiTestApp, MockWorld, shared_state, with_state, mock_chain, upload, upload_custom,
  stored_response, instantiate_, instantiate,
}

module _ {App S : Type 0} (i : StateInterface S) (IsValid : S → Type 0) where
  shared-Wrote :
      (w : MockWorld App S) (r : Outcome CwEnvError S)
      {address : String → Outcome CwEnvError String} {code : String → Outcome CwEnvError ℕ}
      → Wrote i IsValid r address code
      → Wrote (shared_state i) (λ v. IsValid v.state) (map_ok (with_state i w) r) address code
  shared-Wrote w r h = record {
    next = record { app = w.app; state = h.next };
    done = ap (map_ok (with_state i w)) h.done;
    valid = h.valid;
    addresses = h.addresses;
    code_ids = h.code_ids;
  }

  -- A shared state keeps the contract of the state that it shares.
  pub shared_state-StateLaws :
      StateLaws i IsValid → StateLaws (shared_state {App = App} i) (λ w. IsValid w.state)
  shared_state-StateLaws laws = record {
    address_set = λ w k a v. shared-Wrote w _ (laws.address_set w.state k a v);
    code_id_set = λ w k c v. shared-Wrote w _ (laws.code_id_set w.state k c v);
  }

stored_code_id :
    (parsers : Parsers) (s : String) (n : ℕ)
    → parsers.parse_u64 s ≡ some n
    → uploaded_code_id app_response parsers (stored_response s) ≡ ok n
unfolding uploaded_code_id event_attr_value first_value search_event
stored_code_id parsers s n h = rw h refl

module _ {App S Source Msg Coin Salt : Type 0} (t : MultiTestApp App Source Msg Coin Salt)
    (i : StateInterface S) (parsers : Parsers) (sender : String) where
  -- `upload_custom` under the id of a contract does what `upload` of the contract does.
  pub upload_custom-upload :
      (c : Contract) (source : Source) (w : MockWorld App S)
      → upload_custom t i parsers c.id source w
        ≡ Contracts.upload (mock_chain t i parsers sender) c source w
  unfolding upload_custom Contracts.upload Contracts.set_code_id upload
  upload_custom-upload c source w = refl

  -- The world after the upload of a contract.
  uploaded :
      (c : Contract) (source : Source) (w : MockWorld App S) (next : S)
      → parsers.parse_u64 (t.to_string (t.store_code source w.app).0)
        ≡ some (t.store_code source w.app).0
      → i.set_code_id w.state c.id (t.store_code source w.app).0 ≡ ok next
      → Contracts.upload (mock_chain t i parsers sender) c source w ≡ (
        ok (stored_response (t.to_string (t.store_code source w.app).0)),
        record { app = (t.store_code source w.app).1; state = next },
      )
  unfolding Contracts.upload Contracts.set_code_id upload
  uploaded c source w next parsed done = rw (stored_code_id parsers _ _ parsed, done) refl

  -- Over a state that keeps the contract of `StateInterface`, at a valid state: a contract is uploaded, and
  -- the text of the code id that the application stores it under is read back as that code id. If then the
  -- application, asked to instantiate that code with the encoded message and the id of the contract as
  -- label, answers with an address, `instantiate` of the contract gives the answer. From then on the
  -- contracts with the same id have that address and that code id, and all others their address and code
  -- id as before the upload.
  pub instantiate-upload :
      {IsValid : S → Type 0}
      → StateLaws i IsValid
      → (c d : Contract) (source : Source) (msg : Msg) (admin : Option String)
        (coins : Option (List Coin)) (w : MockWorld App S) (encoded : String) (resp : AppResponse)
        (a : String) (app : App)
      → parsers.parse_u64 (t.to_string (t.store_code source w.app).0)
        ≡ some (t.store_code source w.app).0
      → IsValid w.state
      → t.to_json_binary msg ≡ ok encoded
      → t.execute sender
          (instantiate admin (t.store_code source w.app).0 c.id encoded (coins_or_none coins))
          (t.store_code source w.app).1
        ≡ (ok resp, app)
      → instantiated_contract_address app_response parsers resp ≡ ok a
      → let chain = mock_chain t i parsers sender in
        let w' = (Contracts.upload chain c source w).1 in
        ((Contracts.instantiate chain c msg admin coins w').0 ≡ ok resp)
        × (address chain d (Contracts.instantiate chain c msg admin coins w').1
            ≡ (if c.id == d.id then ok a else address chain d w))
        × (code_id chain d (Contracts.instantiate chain c msg admin coins w').1
            ≡ (if c.id == d.id then ok (t.store_code source w.app).0 else code_id chain d w))
  unfolding Contracts.instantiate Contracts.set_address address code_id instantiate_
  instantiate-upload laws c d source msg admin coins w encoded resp a app parsed v json made named =
      let stored = laws.code_id_set w.state c.id (t.store_code source w.app).0 v in
      let placed = laws.address_set stored.next c.id a stored.valid in
      rw
        (
          uploaded c source w stored.next parsed stored.done,
          stored.code_ids c.id,
          eq_refl c.id,
          json,
          made,
          named,
          placed.done,
        )
        (
          refl,
          rw (placed.addresses d.id, stored.addresses d.id) (ground arith),
          rw (placed.code_ids d.id, stored.code_ids d.id) (ground arith),
        )
