-- ===== src/Core/Deploy/Imported/Reading.antt =====
-- What contracts read once the state of a crate was set.
use cw_orchestrator.Common.{
  ℕ, String, ◌≡◌, refl, sym, ◌∙◌, >>=-ok, traverse, Option, none, some, List, [], ◌∷◌, Outcome, ok,
  err, panic, ok_injective, or_outcome, ok_or, ◌>>=◌, if◌then◌else◌,
}
use cw_orchestrator.Core.Error.{CwEnvError, addr_not_in_store, code_id_not_in_store}
use cw_orchestrator.Core.Contract.{Chain, Contract, address, code_id}
use cw_orchestrator.Core.Deploy.Imported.{
  EnvironmentInfo, is_err, entry, as_code_id, as_address, with_code_id, with_address,
  import_code_id, import_address, import_state, set_contracts_state,
}
use cw_orchestrator.Daemon.Json.{Json}

abbrev held : String → Option ℕ → Option String → Contract
held id code a = record { id = id; default_code_id = code; default_address = a }

abbrev HasCode : Outcome CwEnvError ℕ → Option ℕ → Contract → Contract → Type 0
HasCode g o c d =
    (d.id ≡ c.id)
    × (d.default_address ≡ c.default_address)
    × (or_outcome g (ok_or d.default_code_id (code_id_not_in_store d.id))
        ≡ or_outcome (or_outcome g (ok_or c.default_code_id (code_id_not_in_store c.id)))
            (ok_or o (code_id_not_in_store c.id)))

-- One contract, by what the state answers, its default and the entry of the file.
code_id-HasCode :
    (j : Json) {F : Type 0} (g : Outcome CwEnvError ℕ) (code : Option ℕ) (o : Option ℕ)
    (id : String) (a : Option String) (d : Contract)
    → (is_err {F = F} (or_outcome g (ok_or code (code_id_not_in_store id))) >>= λ missing.
        ok (if missing then with_code_id j (held id code a) o else held id code a))
      ≡ ok d
    → HasCode g o (held id code a) d
unfolding import_code_id is_err
code_id-HasCode j (ok n) code o id a d h = rw (sym (ok_injective _ d h)) (refl, refl, refl)
code_id-HasCode j (err e) (some n) o id a d h = rw (sym (ok_injective _ d h)) (refl, refl, refl)
code_id-HasCode j (err e) none (some n) id a d h = rw (sym (ok_injective _ d h)) (refl, refl, refl)
code_id-HasCode j (err e) none none id a d h = rw (sym (ok_injective _ d h)) (refl, refl, refl)
code_id-HasCode j panic code o id a d h = cc

abbrev HasAddress : Outcome CwEnvError String → Option String → Contract → Contract → Type 0
HasAddress g o c d =
    (d.id ≡ c.id)
    × (d.default_code_id ≡ c.default_code_id)
    × (or_outcome g (ok_or d.default_address (addr_not_in_store d.id))
        ≡ or_outcome (or_outcome g (ok_or c.default_address (addr_not_in_store c.id)))
            (ok_or o (addr_not_in_store c.id)))

address-HasAddress :
    (j : Json) {F : Type 0} (g : Outcome CwEnvError String) (a : Option String) (o : Option String)
    (id : String) (code : Option ℕ) (d : Contract)
    → (is_err {F = F} (or_outcome g (ok_or a (addr_not_in_store id))) >>= λ missing.
        ok (if missing then with_address j (held id code a) o else held id code a))
      ≡ ok d
    → HasAddress g o (held id code a) d
unfolding import_address is_err
address-HasAddress j (ok n) a o id code d h = rw (sym (ok_injective _ d h)) (refl, refl, refl)
address-HasAddress j (err e) (some n) o id code d h =
    rw (sym (ok_injective _ d h)) (refl, refl, refl)
address-HasAddress j (err e) none (some n) id code d h =
    rw (sym (ok_injective _ d h)) (refl, refl, refl)
address-HasAddress j (err e) none none id code d h =
    rw (sym (ok_injective _ d h)) (refl, refl, refl)
address-HasAddress j panic a o id code d h = cc

module _ (j : Json) {W Source Msg Coin Salt R E : Type 0} (chain : Chain W Source Msg Coin Salt R E)
    (info : EnvironmentInfo) (state : j.Value) (w : W) where
  abbrev file_code_id : Contract → Option ℕ
  file_code_id c = as_code_id j (entry j state info "code_ids" c.id)

  abbrev file_address : Contract → Option String
  file_address c = as_address j (entry j state info info.deployment_id c.id)

  -- What a contract reads once the state was set: what it read before, and where that was an error
  -- the entry of the file.
  pub record IsImported (c d : Contract) : Type 0 where
    pub same_id : d.id ≡ c.id
    pub code_id_of :
        code_id chain d w
        ≡ or_outcome (code_id chain c w) (ok_or (file_code_id c) (code_id_not_in_store c.id))
    pub address_of :
        address chain d w
        ≡ or_outcome (address chain c w) (ok_or (file_address c) (addr_not_in_store c.id))

  both-IsImported :
      (c m d : Contract)
      → HasCode (chain.state.get_code_id w c.id) (file_code_id c) c m
      → HasAddress (chain.state.get_address w m.id) (file_address m) m d
      → IsImported c d
  unfolding code_id address
  both-IsImported c m d (id₁, address₁, code₁) (id₂, code₂, address₂) = record {
    same_id = id₂ ∙ id₁;
    code_id_of = rw (id₂, code₂, id₁) (rw id₁ at code₁);
    address_of = rw (id₂, id₁) (rw (id₂, id₁, address₁) at address₂);
  }

  import_state-IsImported :
      {F : Type 0} (c d : Contract)
      → import_state j {F = F} chain info state w c ≡ ok d
      → IsImported c d
  unfolding import_state import_code_id import_address code_id address
  import_state-IsImported c d h =
      let (m, coded, e) = >>=-ok (import_code_id j chain info state w c) _ h in
      both-IsImported c m d
        (code_id-HasCode j (chain.state.get_code_id w c.id) c.default_code_id (file_code_id c) c.id
          c.default_address m coded)
        (address-HasAddress j (chain.state.get_address w m.id) m.default_address (file_address m)
          m.id m.default_code_id d e)

  -- Each contract of a list with the one in the same place of another.
  abbrev pub AreImported : List Contract → List Contract → Type 0
  AreImported [] ds = ds ≡ []
  AreImported (c ∷ cs) [] = ⊥
  AreImported (c ∷ cs) (d ∷ ds) = IsImported c d × AreImported cs ds

  imports :
      {F : Type 0} (cs ds : List Contract)
      → traverse (import_state j {F = F} chain info state w) cs ≡ ok ds
      → AreImported cs ds
  imports [] ds h = sym (ok_injective [] ds h)
  imports (c ∷ cs) ds h =
      let (d, first, e) = >>=-ok (import_state j chain info state w c) _ h in
      let (rest, others, e₁) = >>=-ok (traverse (import_state j chain info state w) cs) _ e in
      rw (sym (ok_injective (d ∷ rest) ds e₁))
        (import_state-IsImported c d first, imports cs rest others)

  -- Where `set_contracts_state` ends on a state, without a panic: each contract, in its place, reads the
  -- code id and the address that it read before, and where that was an error the one in the table of its
  -- chain or of its deployment in the state, if there is one of the right type.
  pub set_contracts_state-AreImported :
      {F : Type 0} (contracts imported : List Contract)
      → set_contracts_state j {F = F} chain info (some state) w contracts ≡ ok imported
      → AreImported contracts imported
  unfolding set_contracts_state
  set_contracts_state-AreImported contracts imported h = imports contracts imported h
