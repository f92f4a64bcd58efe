-- ===== src/Config.antt =====
-- pkg/adminconfig/evaluator_input.go, the merge of decisions of pkg/adminconfig/rego_file_evaluator.go,
-- and the copies of pkg/model/adminrules/model.go. OPA, the YAML codec and the JSON schema check are
-- parameters.
pub mod Policies
pub mod Narrow
pub mod Merge
pub mod Evaluate
pub mod Loops
pub mod Decided
pub mod Copies
mod Tests
use mesh_for_data.Base.{
  String, if◌then◌else◌, is_empty, Bool, true, false, not, ◌&&◌, Option, none, some, List, [], ◌∷◌,
  Result, keep,
}
use mesh_for_data.Base.Json.{Fields, Value}
use mesh_for_data.Base.Maps.{Map, insert, lookup, get_or_zero}
use mesh_for_data.Api.Taxonomy.{Action, Cluster, InterfaceDetails, Properties, ResourceMetadata}
use mesh_for_data.Api.Rules.{
  Decision, DecisionPerCapability, DecisionPolicy, DeploymentStatus, Restriction, Restrictions,
  status_empty, status_false, status_true, status_unknown,
}
use mesh_for_data.Planner.Choice.{has_string}

pub record WorkloadInfo : Type 0 where
  pub uuid : String
  pub policy_set_id : String
  pub cluster : Cluster
  pub properties : Properties

-- `usage` maps the name of a data flow to whether it is requested.
pub record DataRequest : Type 0 where
  pub dataset_id : String
  pub interface : InterfaceDetails
  pub usage : Map Bool
  pub metadata : ResourceMetadata

pub record EvaluatorInput : Type 0 where
  pub workload : WorkloadInfo
  pub request : DataRequest
  pub governance_actions : List Action

-- OPA with its prepared query, the codec between the Go structures and OPA's, the taxonomy check of
-- a value, which gives the violations or an error of its own, and the text of the Kubernetes error
-- over violations.
pub record Engine : Type 0 where
  pub prepare_input : EvaluatorInput → Result Fields
  pub eval : Fields → Result (List (List Value))
  pub taxonomy_check : Value → Result (List String)
  pub invalid_error : String → List String → String
  pub decode : Value → Result (List DecisionPerCapability)

-- `utils.Intersection`
unfoldable pub intersection : List String → List String → List String
unfolding keep has_string
intersection set1 set2 = keep (λ e. has_string e set2) set1

-- `none` is a nil map, over which `range` makes no round.
abbrev pub entries : Option Restriction → Restriction
entries none = []
entries (some r) = r

-- The values of the key after one round of `mergeRestrictions`.
abbrev pub merged_values : List String → List String → List String
merged_values old values = if is_empty old then values else intersection old values

-- The first map after the loop over the second, and whether no two value lists were disjoint.
unfoldable pub merge_restrictions : Restriction → Restriction → Restriction × Bool
unfolding insert lookup
merge_restrictions r1 [] = (r1, true)
merge_restrictions r1 ((key, values) ∷ rest) =
    let old = get_or_zero [] key r1 in
    let both = merged_values old values in
    let next = insert key both r1 in
    let more = merge_restrictions next rest in
    if not (is_empty old) && is_empty both then (next, false) else more

-- The deployment decision, or `none` for a conflict.
unfoldable pub merge_deploy : DeploymentStatus → DeploymentStatus → Option DeploymentStatus
merge_deploy new status_unknown = some new
merge_deploy status_unknown old = some old
merge_deploy status_true status_true = some status_true
merge_deploy status_false status_false = some status_false
merge_deploy status_empty status_empty = some status_empty
merge_deploy _ _ = none

abbrev pub no_policy : DecisionPolicy
no_policy = record { id = ""; policy_set_id = ""; description = ""; version = "" }

-- The map of the old decision, which a merge writes to if it is not nil.
abbrev pub written : Option Restriction → Restriction → Option Restriction
written none r = none
written (some _) r = some r

-- Whether the decisions are compatible, the merged decision, and what the merge leaves of the old
-- one, whose maps it shares.
pub record Merged : Type 0 where
  pub valid : Bool
  pub decision : Decision
  pub old : Decision

abbrev pub with_restrictions : Decision → Restrictions → Decision
with_restrictions d r = record d { deployment_restrictions = r }

-- The restrictions of the old decision, merged map by map up to a conflict: the merged ones, what
-- is left of the old ones, and whether there was no conflict.
unfoldable pub merge_all : Restrictions → Restrictions → Restrictions × Restrictions × Bool
unfolding merge_restrictions
merge_all new old =
    let (c, c_ok) = merge_restrictions (entries old.clusters) (entries new.clusters) in
    let (m, m_ok) = merge_restrictions (entries old.modules) (entries new.modules) in
    let (s, s_ok) =
      merge_restrictions (entries old.storage_accounts) (entries new.storage_accounts) in
    let old_c = record old { clusters = written old.clusters c } in
    let old_m = record old_c { modules = written old.modules m } in
    let old_s = record old_m { storage_accounts = written old.storage_accounts s } in
    let all : Restrictions = record {
      clusters = some c;
      modules = some m;
      storage_accounts = some s;
    } in
    if not c_ok
    then (all, old_c, false)
    else if not m_ok
    then (all, old_m, false)
    else (all, old_s, s_ok)

-- The zero value of `Decision`.
abbrev pub no_decision : Decision
no_decision = record {
  deploy = status_empty;
  deployment_restrictions = record { clusters = none; modules = none; storage_accounts = none };
  policy = no_policy;
}

-- What `merge` returns after the restrictions were merged.
abbrev pub merge_end : Decision → DeploymentStatus → Restrictions × Restrictions × Bool → Merged
merge_end old deploy (all, left, true) = record {
  valid = true;
  decision = record { deploy = deploy; deployment_restrictions = all; policy = no_policy };
  old = with_restrictions old left;
}
merge_end old deploy (all, left, false) = record {
  valid = false;
  decision = no_decision;
  old = with_restrictions old left;
}

-- The rest of `merge` behind the deployment decision.
unfoldable pub merge_with : Decision → Decision → Option DeploymentStatus → Merged
unfolding merge_all
merge_with new old none = record { valid = false; decision = no_decision; old = old }
merge_with new old (some deploy) =
    merge_end old deploy (merge_all new.deployment_restrictions old.deployment_restrictions)

unfoldable pub merge : Decision → Decision → Merged
unfolding merge_deploy merge_with
merge new old = merge_with new old (merge_deploy new.deploy old.deploy)

-- Go's `copy(dst, src)`: it overwrites as many elements as the shorter slice has.
unfoldable pub copy_into : List String → List String → List String
copy_into [] src = []
copy_into (x ∷ dst) [] = x ∷ dst
copy_into (x ∷ dst) (y ∷ src) = y ∷ copy_into dst src

-- `Restriction.DeepCopyInto`, where a nil slice is an empty one.
unfoldable pub deep_copy : Restriction → Restriction
unfolding insert copy_into
deep_copy [] = []
deep_copy ((key, values) ∷ rest) = insert key (copy_into [] values) (deep_copy rest)
