-- ===== src/Core/Deploy/Progress.antt =====
-- What the deployment file holds while `multi_network_deploy` goes on, and how it ends.
use cw_orchestrator.Common.{
  String, ◌≡◌, refl, sym, arith, Bool, true, false, not, ◌&&◌, Option, none, some, List, [], ◌∷◌,
  Map, ok, ok_injective, ◌==◌, if◌then◌else◌, member, Bool-cases, inl, inr, eq_iff,
}
use cw_orchestrator.Common.Dict
use cw_orchestrator.Common.Dict.{get-insert, get-empty}
use cw_orchestrator.Common.Exec.{Exec, >>=-eq-ok}
use cw_orchestrator.Core.Deploy.{
  DeployError, Surroundings, Application, Networks, ids, without, deploy_one, deploy_chains,
  deploy_all, after_one, finish,
}

-- What the run relies on: the file reads as it was written, is missing once removed, and neither a
-- deployment nor the action after it touches it.
pub record FileLaws {W Chain Data D : Type 0} (io : Surroundings W)
    (app : Application W Chain Data D) : Type 0 where
  pub written :
      (left : List String) (w : W)
      → (io.write_deployment left w).0 ≡ ok tt
      → io.read_deployment (io.write_deployment left w).1 ≡ some left
  pub removed :
      (w : W)
      → (io.remove_deployment_file w).0 ≡ ok tt
      → io.read_deployment (io.remove_deployment_file w).1 ≡ none
  pub deployed :
      (c : Chain) (a : Data) (w : W)
      → io.read_deployment (deploy_one app c a w).1 ≡ io.read_deployment w

abbrev pub is_some : {A : Type 0} → Option A → Bool
is_some (some a) = true
is_some none = false

-- `m.contains_key(k)`
abbrev pub held : {A : Type 0} → Map A → String → Bool
held m k = is_some (Dict.get m k)

-- The texts of a file that may be missing.
abbrev pub listed : Option (List String) → String → Bool
listed none j = false
listed (some left) j = member j left

member-without :
    (k j : String) (left : List String)
    → member j (without k left) ≡ (if k == j then false else member j left)
member-without k j [] = elim (Bool-cases (k == j)) [ inl e ↦ rw e refl | inr e ↦ rw e refl ]
member-without k j (i ∷ left) = elim (Bool-cases (i == k)) [
  | inl e ↦ rw (e, member-without k j left, (eq_iff i k).0 e) (ground arith)
  | inr e ↦ rw e (ground (arith, member-without k j left, eq_iff i j, eq_iff k j, eq_iff i k))
]

module _ {W Chain Data D : Type 0} (io : Surroundings W) (app : Application W Chain Data D)
    (laws : FileLaws io app) (all : List String) where
  -- Between two chains: the file has those that are left, and of the chains to deploy these are the
  -- ones without a deployment.
  pub record Tracked (left : List String) (deployments : Map D) (w : W) : Type 0 where
    pub file : io.read_deployment w ≡ some left
    pub pending : (j : String) → member j left ≡ (member j all && not (held deployments j))

  removed-pending :
      (id : String) (left : List String) (deployments : Map D) (d : D) (w : W)
      → Tracked left deployments w
      → (j : String)
      → member j (without id left) ≡ (member j all && not (held (Dict.insert deployments id d) j))
  removed-pending id left deployments d w t j =
      rw (member-without id j left, get-insert deployments id j d) (ground (arith, t.pending j))

  -- What stays tracked whatever the run is given.
  abbrev Keeps : (List String → Map D → Exec W DeployError (List String × Map D)) → Type 0
  Keeps next =
      (left : List String) (deployments : Map D) (w : W) (x : List String × Map D)
      → Tracked left deployments w
      → (next left deployments w).0 ≡ ok x
      → Tracked x.0 x.1 (next left deployments w).1

  after_one-Tracked :
      (id : String) (o : Option D)
      (next : List String → Map D → Exec W DeployError (List String × Map D))
      → Keeps next
      → Keeps (λ left deployments. after_one io app id left deployments next o)
  unfolding deploy_chains
  after_one-Tracked id none next keeps left deployments w x t h = keeps left deployments w x t h
  after_one-Tracked id (some d) next keeps left deployments w x t h =
      let (u, wrote, eq) = >>=-eq-ok (io.write_deployment (without id left)) _ w h in
      rw eq (
        keeps _ _ _ x
          (record {
            file = laws.written (without id left) w wrote;
            pending = removed-pending id left deployments d w t;
          })
          (rw eq at h))

  deploy_chains-Tracked : (targets : Networks Chain Data) → Keeps (deploy_chains io app targets)
  unfolding deploy_chains
  deploy_chains-Tracked [] left deployments w x t h = rw (sym (ok_injective _ x h)) t
  deploy_chains-Tracked ((id, (c, a)) ∷ rest) left deployments w x t h =
      let (o, tried, eq) = >>=-eq-ok (deploy_one app c a) _ w h in
      rw eq (
        after_one-Tracked id o _ (deploy_chains-Tracked rest) left deployments _ x
          (record { file = rw (laws.deployed c a w) t.file; pending = t.pending }) (rw eq at h))

  finish-listed :
      (x : List String × Map D) (w : W) (d : Map D)
      → Tracked x.0 x.1 w
      → (finish io app x w).0 ≡ ok d
      → (j : String)
      → listed (io.read_deployment (finish io app x w).1) j ≡ (member j all && not (held d j))
  unfolding deploy_all
  finish-listed ([], deployments) w d t h j =
      let (u, removed, eq) = >>=-eq-ok io.remove_deployment_file _ w h in
      rw (eq, laws.removed w removed, sym (ok_injective _ d (rw eq at h))) (t.pending j)
  finish-listed (id ∷ left, deployments) w d t h j =
      rw (t.file, sym (ok_injective _ d h)) (t.pending j)

module _ {W Chain Data D : Type 0} (io : Surroundings W) (app : Application W Chain Data D)
    (laws : FileLaws io app) where
  -- If the file reads as it was last written, is missing once it was removed, and no deployment
  -- touches it, then after a run that gave deployments the file lists, of the chains to deploy, those
  -- that have none, and it lists no other.
  pub deploy_all-pending :
      (targets : Networks Chain Data) (w : W) (deployments : Map D)
      → (deploy_all io app targets w).0 ≡ ok deployments
      → (j : String)
      → listed (io.read_deployment (deploy_all io app targets w).1) j
        ≡ (member j (ids targets) && not (held deployments j))
  unfolding deploy_all
  deploy_all-pending targets w deployments h j =
      let (u, wrote, eq) = >>=-eq-ok (io.write_deployment (ids targets)) _ w h in
      let (x, ran, eq₁) =
        >>=-eq-ok (deploy_chains io app targets (ids targets) Dict.empty) _ _ (rw eq at h) in
      let t =
        deploy_chains-Tracked io app laws (ids targets) targets (ids targets) Dict.empty _ x
          (record {
            file = laws.written (ids targets) w wrote;
            pending = λ i. rw (get-empty {V = D} i) (ground arith);
          })
          ran in
      rw (eq, eq₁) (finish-listed io app laws (ids targets) x _ deployments t (rw (eq, eq₁) at h) j)
