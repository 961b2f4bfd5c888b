-- ===== src/Core/Deploy.antt =====
-- `Deploy::multi_network_deploy` in packages/cw-orch-core/src/contract/deploy.rs, with the
-- deployment file that it keeps beside the deployments. A `HashSet` of chain ids is a list, and the
-- iteration over a `HashMap` follows the order of its entries. Log lines and prompts are left out.
pub mod Progress
pub mod Resuming
pub mod Imported
use cw_orchestrator.Common.{
  String, Bool, true, false, not, Option, none, some, List, [], ◌∷◌, map, Map, Outcome, ok, err,
  panic, ◌==◌, if◌then◌else◌, keep, member, if_none,
}
use cw_orchestrator.Common.Dict
use cw_orchestrator.Common.Exec.{Exec, pure, lift, gets, throw, ◌>>=◌, ◌>>◌}
use cw_orchestrator.Common.Text.{contains}

-- The errors of `bail!`, and the text of any other.
pub data DeployError : Type 0 where
  file_is_corrupted : String → DeployError
  deployment_aborted : DeployError
  other_error : String → DeployError

-- The files and the terminal, on a world `W`: the texts of the deployment file where it can be read as
-- a list of chain ids, its writing and removal, the answer to a question, and the letters of
-- `to_lowercase`; whether the variable CW_ORCH_MANUAL_INTERACTION asks for answers.
pub record Surroundings (W : Type 0) : Type 0 where
  pub read_deployment : W → Option (List String)
  pub write_deployment : List String → Exec W DeployError Unit
  pub remove_deployment_file : Exec W DeployError Unit
  pub read_line : Exec W DeployError String
  pub to_lowercase : String → String
  pub manual_interaction : Outcome DeployError Bool

-- The application: the trait's `deploy_on`, and the action that follows it, if any.
pub record Application (W Chain Data D : Type 0) : Type 0 where
  pub chain_id : Chain → W → Outcome DeployError String
  pub deploy_on : Chain → Data → Exec W DeployError D
  pub after_deploy_action : Option (D → Exec W DeployError Unit)

-- `hash_networks`, and the chains to deploy, as the entries of a `HashMap`.
abbrev pub Networks : Type 0 → Type 0 → Type 0
Networks Chain Data = List (String × (Chain × Data))

abbrev pub ids : {A : Type 0} → List (String × A) → List String
ids = map (λ e. e.0)

abbrev pub without : String → List String → List String
without k = keep (λ j. not (j == k))

kept : {A : Type 0} → Outcome DeployError A → Outcome DeployError (Option A)
kept (ok a) = ok (some a)
kept (err e) = ok none
kept panic = panic

-- A failure that is only logged.
attempt : {W A : Type 0} → Exec W DeployError A → Exec W DeployError (Option A)
unfolding kept
attempt m w = let (r, w') = m w in (kept r, w')

module _ {W Chain Data D : Type 0} (app : Application W Chain Data D) where
  run_action : Option (D → Exec W DeployError Unit) → D → Exec W DeployError D
  run_action none deployment = pure deployment
  run_action (some action) deployment = action deployment >> pure deployment

  -- The deployment of one chain with the action after it, or none where one of them fails.
  unfoldable pub deploy_one : Chain → Data → Exec W DeployError (Option D)
  unfolding run_action attempt
  deploy_one chain arg = attempt (app.deploy_on chain arg >>= run_action app.after_deploy_action)

  -- The collection into a `HashMap`: of equal chain ids the last one stays.
  hashed : Map (Chain × Data) → List (Chain × Data) → Exec W DeployError (Map (Chain × Data))
  hashed m [] = pure m
  hashed m ((c, d) ∷ rest) = gets (app.chain_id c) >>= λ id. hashed (Dict.insert m id (c, d)) rest

  unfoldable pub hash_networks : List (Chain × Data) → Exec W DeployError (Map (Chain × Data))
  unfolding hashed
  hash_networks = hashed Dict.empty

module _ {W : Type 0} (io : Surroundings W) where
  module _ {Chain Data D : Type 0} (app : Application W Chain Data D) where
    -- After a deployment its chain leaves the file; after a failure the loop goes on.
    after_one :
        String
        → List String
        → Map D
        → (List String → Map D → Exec W DeployError (List String × Map D))
        → Option D
        → Exec W DeployError (List String × Map D)
    after_one id left deployments next none = next left deployments
    after_one id left deployments next (some deployment) =
        io.write_deployment (without id left)
        >> next (without id left) (Dict.insert deployments id deployment)

    -- The loop, on the chains that are left and the deployments so far.
    unfoldable pub deploy_chains :
        Networks Chain Data → List String → Map D → Exec W DeployError (List String × Map D)
    unfolding after_one
    deploy_chains [] left deployments = pure (left, deployments)
    deploy_chains ((id, (chain, arg)) ∷ rest) left deployments =
        deploy_one app chain arg >>= after_one id left deployments (deploy_chains rest)

    -- After the loop the file is removed if every chain was deployed.
    finish : List String × Map D → Exec W DeployError (Map D)
    finish ([], deployments) = io.remove_deployment_file >> pure deployments
    finish (id ∷ left, deployments) = pure deployments

    -- The part that deploys, once the chains are chosen.
    unfoldable pub deploy_all : Networks Chain Data → Exec W DeployError (Map D)
    unfolding finish
    deploy_all targets =
        io.write_deployment (ids targets)
        >> (deploy_chains targets (ids targets) Dict.empty >>= finish)

  -- The first chain of the file that is not among the networks.
  unfoldable pub unknown : {A : Type 0} → Map A → List String → Option String
  unknown networks [] = none
  unknown networks (id ∷ rest) = if_none (Dict.get networks id) (some id) (unknown networks rest)

  chosen :
      {A : Type 0} → Map A → List String → Option String → Exec W DeployError (List (String × A))
  chosen networks left (some id) = throw (file_is_corrupted id)
  chosen networks left none = pure (keep (λ e. member e.0 left) (Dict.entries networks))

  asked : {A : Type 0} → Map A → Bool → Exec W DeployError (List (String × A))
  asked networks false = pure (Dict.entries networks)
  asked networks true = io.read_line >>= λ input.
      if contains (io.to_lowercase input) "n"
      then throw deployment_aborted
      else pure (Dict.entries networks)

  choose : {A : Type 0} → Map A → Option (List String) → Exec W DeployError (List (String × A))
  unfolding chosen asked unknown
  choose networks (some left) = chosen networks left (unknown networks left)
  choose networks none = lift io.manual_interaction >>= asked networks

  -- The chains to deploy: those of the file, or after a question all networks.
  unfoldable pub chains_to_deploy : {A : Type 0} → Map A → Exec W DeployError (List (String × A))
  unfolding choose
  chains_to_deploy networks w = choose networks (io.read_deployment w) w

  unfoldable pub multi_network_deploy :
      {Chain Data D : Type 0}
      → Application W Chain Data D
      → List (Chain × Data)
      → Exec W DeployError (Map D)
  multi_network_deploy app networks =
      hash_networks app networks >>= chains_to_deploy >>= deploy_all app
