-- ===== src/Interchain/MockEnv/Registered.antt =====
-- The chains that packages/interchain/interchain-mock/src/interchain.rs registers.
use cw_orchestrator.Common.{
  String, ◌≡◌, ◌∙◌, refl, sym, arith, Bool, true, false, some, List, [], ◌∷◌, map, Map, Outcome, ok,
  panic, ok_injective, All, All-map, ◌==◌, member, Bool-cases, inl, inr, eq_refl, eq_iff,
}
use cw_orchestrator.Common.Dict
use cw_orchestrator.Common.Dict.{get-insert}
use cw_orchestrator.Interchain.MockEnv.{MockInterchainEnv, extend, all_new, new, get_chain}

module _ {A : Type 0} (make : String → String → A) where
  abbrev made : String × String → String × A
  made c = (c.0, make c.1 c.0)

  ids : List (String × String) → List String
  ids = map (λ c. c.0)

  extend-other :
      (m : Map A) (chains : List (String × String)) (k : String)
      → member k (ids chains) ≡ false
      → Dict.get (extend m (map made chains)) k ≡ Dict.get m k
  unfolding new ids
  extend-other m [] k h = refl
  extend-other m (c ∷ chains) k h =
      extend-other (Dict.insert m c.0 (make c.1 c.0)) chains k (ground (arith, h))
      ∙ get-insert m c.0 k (make c.1 c.0)
      ∙ ground (arith, h)

  all_new-seen :
      (seen : List String) (chains : List (String × String)) (k : String)
      → all_new seen chains ≡ true
      → member k seen ≡ true
      → member k (ids chains) ≡ false
  unfolding new ids
  all_new-seen seen [] k h s = refl
  all_new-seen seen (c ∷ chains) k h s =
      let later : member k (ids chains) ≡ false =
        all_new-seen (c.0 ∷ seen) chains k (ground (arith, h)) (ground (arith, s)) in
      elim (Bool-cases (c.0 == k)) [
        | inl e ↦ absurd (both (rw (sym ((eq_iff c.0 k).0 e)) at s) (ground (arith, h)))
        | inr e ↦ rw (e, later) refl
      ]
    where
      both : {b : Bool} → b ≡ true → b ≡ false → ⊥
      both p q = cc

  registered :
      (m : Map A) (seen : List String) (chains : List (String × String))
      → all_new seen chains ≡ true
      → All (λ c. Dict.get (extend m (map made chains)) c.0 ≡ some (make c.1 c.0)) chains
  unfolding new
  registered m seen [] h = tt
  registered m seen (c ∷ chains) h =
      let later =
        all_new-seen (c.0 ∷ seen) chains c.0 (ground (arith, h)) (rw (eq_refl c.0) refl) in
      (
        extend-other (Dict.insert m c.0 (make c.1 c.0)) chains c.0 later
            ∙ get-insert m c.0 c.0 (make c.1 c.0)
            ∙ rw (eq_refl c.0) refl,
        registered (Dict.insert m c.0 (make c.1 c.0)) (c.0 ∷ seen) chains (ground (arith, h)),
      )

  chain_of :
      (m : Map A) (id : String) (a : A)
      → Dict.get m id ≡ some a
      → get_chain (record { mocks = m }) id ≡ ok a
  unfolding get_chain
  chain_of m id a h = rw h refl

  new-ok :
      {E : Type 0} (chains : List (String × String)) (env : MockInterchainEnv A)
      → new {E = E} make chains ≡ ok env
      → (all_new [] chains ≡ true) × (env ≡ record { mocks = extend Dict.empty (map made chains) })
  unfolding new
  new-ok chains env h = elim (Bool-cases (all_new [] chains)) [
    | inl e ↦ (e, sym (ok_injective _ env (rw e at h)))
    | inr e ↦ absurd (stuck (rw e at h))
  ]
    where
      stuck : {E : Type 0} → Path (Outcome E (MockInterchainEnv A)) panic (ok env) → ⊥
      stuck p = cc

  -- Where `new` gives an environment, `get_chain` gives for each of its chains the mock that was made
  -- for it.
  pub new-get_chain :
      {E : Type 0} (chains : List (String × String)) (env : MockInterchainEnv A)
      → new {E = E} make chains ≡ ok env
      → All (λ c. get_chain env c.0 ≡ ok (make c.1 c.0)) chains
  new-get_chain chains env h =
      let (distinct, same) = new-ok chains env h in
      rw same (
        All-map _ _ chains (λ c. chain_of _ c.0 (make c.1 c.0))
          (registered Dict.empty [] chains distinct))
