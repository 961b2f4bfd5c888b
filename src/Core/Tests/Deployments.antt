-- ===== src/Core/Tests/Deployments.antt =====
-- A deployment to two chains, of which the first one fails, over a deployment file that is the world.
use cw_orchestrator.Common.{
  panic, ◌≢◌, String, ◌≡◌, refl, Bool, true, false, not, ◌&&◌, Option, none, some, List, [], ◌∷◌,
  Map, Outcome, ok, err, member,
}
use cw_orchestrator.Common.Dict
use cw_orchestrator.Core.Deploy.{
  DeployError, other_error, Surroundings, Application, Networks, ids, deploy_all, deploy_chains,
  chains_to_deploy, deploy_one, unknown,
}
use cw_orchestrator.Core.Deploy.Progress.{FileLaws, held, listed, deploy_all-pending}
use cw_orchestrator.Core.Deploy.Resuming.{IsSteady, deploy_all-returns, chains_to_deploy-deploy_all}

abbrev File : Type 0
File = Option (List String)

abbrev disk : Surroundings File
disk = record {
  read_deployment = λ w. w;
  write_deployment = λ left w. (ok tt, some left);
  remove_deployment_file = λ w. (ok tt, none);
  read_line = λ w. (ok "y", w);
  to_lowercase = λ s. s;
  manual_interaction = ok false;
}

abbrev deploying : Bool → Outcome DeployError (Unit {0})
deploying true = ok tt
deploying false = err (other_error "no funds")

-- A chain that is `false` fails.
abbrev counter : Application File Bool (Unit {0}) (Unit {0})
counter = record {
  chain_id = λ c w. ok "";
  deploy_on = λ c d w. (deploying c, w);
  after_deploy_action = none;
}

abbrev two_chains : Networks Bool (Unit {0})
two_chains = ("juno-1", (false, tt)) ∷ ("osmosis-1", (true, tt)) ∷ []

abbrev deployed_one : Map (Unit {0})
deployed_one = Dict.insert Dict.empty "osmosis-1" tt

both : (c : Bool) (a : Unit {0}) (w : File) → (deploy_one counter c a w).1 ≡ w
unfolding deploy_one
both true a w = refl
both false a w = refl

laws : FileLaws disk counter
laws = record { written = λ left w h. refl; removed = λ w h. refl; deployed = both }

calm : (c : Bool) (a : Unit {0}) (w : File) → (counter.deploy_on c a w).0 ≢ panic
calm true a w = λ h. cc
calm false a w = λ h. cc

steady : IsSteady disk counter
steady = record {
  writes = λ left w. refl;
  removes = λ w. refl;
  deploys = calm;
  acts = λ action h. cc;
}

ran : (deploy_all disk counter two_chains none).0 ≡ ok deployed_one
unfolding deploy_all deploy_chains deploy_one
ran = refl

deploy_all-pending_example :
    listed (deploy_all disk counter two_chains none).1 "juno-1"
    ≡ (member "juno-1" (ids two_chains) && not (held deployed_one "juno-1"))
deploy_all-pending_example =
    deploy_all-pending disk counter laws two_chains none deployed_one ran "juno-1"

deploy_all-returns_example :
    (deployments : Map (Unit {0})) × ((deploy_all disk counter two_chains none).0 ≡ ok deployments)
deploy_all-returns_example = deploy_all-returns disk counter steady two_chains none

-- The networks of the next run: both chains and one more.
abbrev next_networks : Map (Unit {0})
next_networks =
    Dict.insert (Dict.insert (Dict.insert Dict.empty "osmosis-1" tt) "juno-1" tt) "neutron-1" tt

abbrev chosen_next : List (String × Unit {0})
chosen_next = ("juno-1", tt) ∷ []

abbrev after_first : File
after_first = (deploy_all disk counter two_chains none).1

left_one : after_first ≡ some ("juno-1" ∷ [])
unfolding deploy_all deploy_chains deploy_one
left_one = refl

chose : (chains_to_deploy disk next_networks after_first).0 ≡ ok chosen_next
unfolding deploy_all deploy_chains deploy_one chains_to_deploy unknown Dict.get Dict.insert
    Dict.entries Dict.empty
chose = refl

chains_to_deploy-deploy_all_example : member "neutron-1" (ids chosen_next) ≡ (
    member "neutron-1" (ids (Dict.entries next_networks))
    && (member "neutron-1" (ids two_chains) && not (held deployed_one "neutron-1")))
chains_to_deploy-deploy_all_example =
    chains_to_deploy-deploy_all disk counter laws two_chains next_networks none deployed_one
      ("juno-1" ∷ []) chosen_next ran left_one chose "neutron-1"
