-- ===== src/Core/Deploy/Resuming.antt =====
-- How a run of `multi_network_deploy` ends when deployments fail, and what the next run takes from
-- the deployment file.
use cw_orchestrator.Common.{
  String, ◌≡◌, refl, sym, arith, not, ◌&&◌, Option, none, some, List, [], ◌∷◌, Map, ok, ◌≢◌,
  Outcome, panic, Outcome-cases, ok_injective, keep, member, Bool-cases, inl, inr, eq_iff,
}
use cw_orchestrator.Common.Dict
use cw_orchestrator.Common.Exec.{Exec, ◌>>=◌, >>=-not-panic}
use cw_orchestrator.Core.Deploy.{
  DeployError, Surroundings, Application, Networks, ids, without, deploy_one, deploy_chains,
  deploy_all, after_one, finish, chains_to_deploy, chosen, attempt, run_action,
}
use cw_orchestrator.Core.Deploy.Progress.{FileLaws, held, deploy_all-pending}

not_panic : {A : Type 0} {a : A} → Path (Outcome DeployError A) (ok a) panic → ⊥
not_panic h = cc

module _ {W Chain Data D : Type 0} (io : Surroundings W) (app : Application W Chain Data D) where
  -- The file can always be written and removed, and neither a deployment nor the action after it panics.
  pub record IsSteady : Type 0 where
    pub writes : (left : List String) (w : W) → (io.write_deployment left w).0 ≡ ok tt
    pub removes : (w : W) → (io.remove_deployment_file w).0 ≡ ok tt
    pub deploys : (c : Chain) (a : Data) (w : W) → (app.deploy_on c a w).0 ≢ panic
    pub acts :
        (action : D → Exec W DeployError Unit)
        → app.after_deploy_action ≡ some action
        → (d : D) (w : W) → (action d w).0 ≢ panic

  attempt-Returns :
      {A : Type 0} (m : Exec W DeployError A) (w : W)
      → (m w).0 ≢ panic
      → (o : Option A) × ((attempt m w).0 ≡ ok o)
  unfolding deploy_one
  attempt-Returns m w h = elim (Outcome-cases (m w).0) [
    | inl (a, e) ↦ (some a, rw e refl)
    | inr (inl (x, e)) ↦ (none, rw e refl)
    | inr (inr e) ↦ absurd (h e)
  ]

  run_action-calm :
      (o : Option (D → Exec W DeployError Unit)) (d : D) (w : W)
      → ((action : D → Exec W DeployError Unit) → o ≡ some action → (action d w).0 ≢ panic)
      → (run_action app o d w).0 ≢ panic
  unfolding deploy_one
  run_action-calm none d w calm = not_panic
  run_action-calm (some action) d w calm =
      >>=-not-panic (action d) _ w (calm action refl) (λ u. not_panic)

  abbrev Returns : {A : Type 0} → Exec W DeployError A → Type 0
  Returns {A} m = (w : W) → (a : A) × ((m w).0 ≡ ok a)

  module _ (steady : IsSteady) where
    deploy_one-Returns :
        (c : Chain) (a : Data) (w : W) → (o : Option D) × ((deploy_one app c a w).0 ≡ ok o)
    unfolding deploy_one
    deploy_one-Returns c a w =
        attempt-Returns (λ v. (app.deploy_on c a >>= run_action app app.after_deploy_action) v) w
          (>>=-not-panic (app.deploy_on c a) _ w (steady.deploys c a w) (λ d.
            run_action-calm app.after_deploy_action d _ (λ action e. steady.acts action e d _)))

    after_one-Returns :
        (id : String) (o : Option D)
        (next : List String → Map D → Exec W DeployError (List String × Map D)) (left : List String)
        (deployments : Map D)
        → ((l : List String) (d : Map D) → Returns (next l d))
        → Returns (after_one io app id left deployments next o)
    unfolding deploy_chains
    after_one-Returns id none next left deployments returns w = returns left deployments w
    after_one-Returns id (some d) next left deployments returns w =
        rw (steady.writes (without id left) w) (returns _ _ _)

    deploy_chains-Returns :
        (targets : Networks Chain Data) (left : List String) (deployments : Map D)
        → Returns (deploy_chains io app targets left deployments)
    unfolding deploy_chains
    deploy_chains-Returns [] left deployments w = ((left, deployments), refl)
    deploy_chains-Returns ((id, (c, a)) ∷ rest) left deployments w =
        let (o, tried) = deploy_one-Returns c a w in
        rw tried (
          after_one-Returns id o (deploy_chains io app rest) left deployments
            (deploy_chains-Returns rest) (deploy_one app c a w).1)

    finish-Returns : (x : List String × Map D) → Returns (finish io app x)
    unfolding deploy_all
    finish-Returns ([], deployments) w = rw (steady.removes w) (deployments, refl)
    finish-Returns (id ∷ left, deployments) w = (deployments, refl)

    -- If the file can always be written and removed, and neither a deployment nor the action after it
    -- panics, the run gives its deployments, whichever deployments and actions fail with an error.
    pub deploy_all-returns :
        (targets : Networks Chain Data) (w : W)
        → (deployments : Map D) × ((deploy_all io app targets w).0 ≡ ok deployments)
    unfolding deploy_all
    deploy_all-returns targets w =
        let (x, ran) =
          deploy_chains-Returns targets (ids targets) Dict.empty
            (io.write_deployment (ids targets) w).1 in
        rw (steady.writes (ids targets) w, ran) (finish-Returns x _)

module _ {A : Type 0} where
  member-ids-keep :
      (left : List String) (networks : List (String × A)) (j : String)
      → member j (ids (keep (λ e. member e.0 left) networks))
        ≡ (member j (ids networks) && member j left)
  member-ids-keep left [] j = refl
  member-ids-keep left ((k, a) ∷ rest) j = elim (Bool-cases (member k left)) [
    | inl e ↦ rw e (ground (arith, member-ids-keep left rest j, eq_iff k j))
    | inr e ↦ rw e (ground (arith, member-ids-keep left rest j, eq_iff k j))
  ]

module _ {W Chain Data D A : Type 0} (io : Surroundings W) (app : Application W Chain Data D)
    (laws : FileLaws io app) where
  chosen-left :
      (networks : Map A) (left : List String) (o : Option String) (w : W) (next : List (String × A))
      → (chosen io networks left o w).0 ≡ ok next
      → next ≡ keep (λ e. member e.0 left) (Dict.entries networks)
  unfolding chains_to_deploy
  chosen-left networks left none w next h = sym (ok_injective _ next h)
  chosen-left networks left (some id) w next h = cc

  -- If the file reads as it was last written, is missing once it was removed, and no deployment
  -- touches it, then after a run that gave deployments and left a file, the next run, on any networks,
  -- if it can choose its chains, chooses of them those that the first run was to deploy and did not.
  pub chains_to_deploy-deploy_all :
      (targets : Networks Chain Data) (networks : Map A) (w : W) (deployments : Map D)
      (left : List String) (next : List (String × A))
      → (deploy_all io app targets w).0 ≡ ok deployments
      → io.read_deployment (deploy_all io app targets w).1 ≡ some left
      → (chains_to_deploy io networks (deploy_all io app targets w).1).0 ≡ ok next
      → (j : String)
      → member j (ids next) ≡ (
          member j (ids (Dict.entries networks))
          && (member j (ids targets) && not (held deployments j)))
  unfolding chains_to_deploy
  chains_to_deploy-deploy_all targets networks w deployments left next ran file chose j =
      rw
        (
          chosen-left networks left _ _ next (rw file at chose),
          member-ids-keep left (Dict.entries networks) j,
          sym (rw file at (deploy_all-pending io app laws targets w deployments ran j)),
        )
        refl
