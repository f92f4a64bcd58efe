-- ===== src/Config/Tests.antt =====
-- The theorems of Config at concrete rules.
use mesh_for_data.Base.{
  String, ◌≡◌, refl, ap, subst, true, none, some, List, [], ◌∷◌, All, Result, ok, err,
}
use mesh_for_data.Base.Json.{Fields, Value, null, end}
use mesh_for_data.Base.Maps.{lookup}
use mesh_for_data.Api.Rules.{
  Decision, DecisionPerCapability, DeploymentStatus, Restriction, status_empty, status_true,
  status_unknown,
}
use mesh_for_data.Base.{is_empty}
use mesh_for_data.Planner.Samples.{item}
use mesh_for_data.Config.{Engine, EvaluatorInput, deep_copy, intersection, merge, no_policy}
use mesh_for_data.Config.Policies.{
  evaluate, get_opa_decisions, validate_structure, apply_result, apply_expression, apply_rule,
  decide, add_to, each,
}
use mesh_for_data.Planner.Samples.{cluster_in, generator}
use mesh_for_data.Planner.Choice.{meets_all}
use mesh_for_data.Config.Copies.{meets_all-deep_copy}
use mesh_for_data.Config.Decided.{evaluate-IsServed}
use mesh_for_data.Config.Loops.{HasMaps, IsRead}
use mesh_for_data.Config.Evaluate.{AreMaps, AreMaps-Honors}
use mesh_for_data.Config.Merge.{Honors, merge-Honors}

-- A decision on the regions of the cluster.
abbrev on_regions : DeploymentStatus → List String → Decision
on_regions deploy regions = record {
  deploy = deploy;
  deployment_restrictions = record {
    clusters = some (("region", regions) ∷ []);
    modules = none;
    storage_accounts = none;
  };
  policy = no_policy;
}

abbrev rules : List DecisionPerCapability
rules =
    record { capability = "read"; decision = on_regions status_true ("spain" ∷ "norway" ∷ []) }
    ∷ record { capability = "read"; decision = on_regions status_empty ("norway" ∷ []) }
    ∷ []

-- OPA answers every query with one value, which is decoded to the two rules.
abbrev engine : Engine
engine = record {
  prepare_input = λ input. ok end;
  eval = λ fields. ok ((null ∷ []) ∷ []);
  taxonomy_check = λ value. ok [];
  invalid_error = λ uuid violations. uuid;
  decode = λ value. ok rules;
}

abbrev input : EvaluatorInput
input = record {
  workload = record {
    uuid = "1";
    policy_set_id = "";
    cluster = item.workload_cluster;
    properties = end;
  };
  request = record {
    dataset_id = "asset-1";
    interface = item.context.requirements.interface;
    usage = [];
    metadata = item.data_details.resource_metadata;
  };
  governance_actions = [];
}

abbrev or_nothing : Result (List DecisionPerCapability) → List DecisionPerCapability
or_nothing (ok rs) = rs
or_nothing (err e) = []

rules-HasMaps : All HasMaps rules
unfolding lookup
rules-HasMaps = (
  record { clusters = (refl, tt); modules = tt; storage_accounts = tt },
  (record { clusters = (refl, tt); modules = tt; storage_accounts = tt }, tt),
)

evaluate_rules : evaluate engine input ≡ ((evaluate engine input).0, none)
unfolding evaluate get_opa_decisions apply_result apply_expression apply_rule decide add_to each
    validate_structure intersection
evaluate_rules = refl

evaluate_rules_valid : (evaluate engine input).0.valid ≡ true
unfolding evaluate get_opa_decisions apply_result apply_expression apply_rule decide add_to each
    validate_structure intersection
evaluate_rules_valid = refl

evaluate-IsServed_example :
    (fields : Fields) × (rs : List (List Value)) × (engine.prepare_input input ≡ ok fields)
    × (engine.eval fields ≡ ok rs)
    × All (All (IsRead engine "" (evaluate engine input).0)) rs
evaluate-IsServed_example =
    evaluate-IsServed engine
      (λ value decoded e. subst (All HasMaps) (ap or_nothing e) rules-HasMaps) input
      (evaluate engine input).0 evaluate_rules evaluate_rules_valid

-- The decision of the first rule, which the second one narrows.
abbrev wide : Decision
wide = on_regions status_true ("spain" ∷ "norway" ∷ [])

abbrev narrow : Decision
narrow = on_regions status_unknown ("norway" ∷ [])

wide-AreMaps : AreMaps wide
unfolding lookup
wide-AreMaps = record { clusters = (refl, tt); modules = tt; storage_accounts = tt }

merged_is_valid : (merge narrow wide).valid ≡ true
unfolding merge intersection
merged_is_valid = refl

merge-Honors_example :
    Honors narrow (merge narrow wide).decision × Honors wide (merge narrow wide).decision
merge-Honors_example =
    merge-Honors wide narrow wide merged_is_valid (AreMaps-Honors wide wide-AreMaps)

abbrev regions : Restriction
regions = ("region", "spain" ∷ "norway" ∷ []) ∷ []

meets_all-deep_copy_example :
    meets_all generator (cluster_in "north" "spain") (deep_copy regions) ≡ is_empty regions
meets_all-deep_copy_example = meets_all-deep_copy generator (cluster_in "north" "spain") regions

deep_copy_of_regions : lookup "region" (deep_copy regions) ≡ some []
unfolding deep_copy lookup
deep_copy_of_regions = refl
