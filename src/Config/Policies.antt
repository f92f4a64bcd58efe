-- ===== src/Config/Policies.antt =====
-- Evaluate and getOPADecisions of pkg/adminconfig/rego_file_evaluator.go: the loops over the results of
-- OPA, on an output that grows.
use mesh_for_data.Base.{
  String, ◌==◌, ◌<>◌, if◌then◌else◌, is_empty, Bool, true, false, not, ◌&&◌, Option, none, some,
  List, [], ◌∷◌, ◌++◌, ok, err,
}
use mesh_for_data.Base.Json.{Value}
use mesh_for_data.Base.Maps.{insert, lookup}
use mesh_for_data.Api.Rules.{
  Decision, DecisionPerCapability, DecisionPolicy, DeploymentStatus, EvaluatorOutput, status_empty,
  status_unknown,
}
use mesh_for_data.Config.{Engine, EvaluatorInput, WorkloadInfo, merge}

-- How the loop over the rules goes on: to the next rule, out with a conflict, or out with an error.
pub data Outcome : Type 0 where
  going conflict : Outcome
  failed : String → Outcome

-- The policy belongs to another policy set than the workload's.
unfoldable pub other_policy_set : String → DecisionPolicy → Bool
other_policy_set set_id policy =
    not (policy.policy_set_id == "") && not (set_id == "") && not (policy.policy_set_id == set_id)

unfoldable pub default_deploy : DeploymentStatus → DeploymentStatus
default_deploy status_empty = status_unknown
default_deploy s = s

-- A decision on a capability that has one already.
unfoldable pub add_to : EvaluatorOutput → String → Decision → Decision → EvaluatorOutput × Outcome
unfolding merge insert
add_to out capability new old =
    let m = merge new old in
    if m.valid
    then (
      record out { config_decisions = insert capability m.decision out.config_decisions },
      going,
    )
    else (record out { config_decisions = insert capability m.old out.config_decisions }, conflict)

-- A decision on a capability, with the one that it has already.
unfoldable pub decide :
    EvaluatorOutput → String → Decision → Option Decision → EvaluatorOutput × Outcome
unfolding add_to insert
decide out capability new none =
    (record out { config_decisions = insert capability new out.config_decisions }, going)
decide out capability new (some old) = add_to out capability new old

-- A rule's decision with the default for an undefined field.
abbrev pub with_default : Decision → Decision
with_default d = record d { deploy = default_deploy d.deploy }

-- One round of the loop over the rules.
unfoldable pub apply_rule :
    String → EvaluatorOutput → DecisionPerCapability → EvaluatorOutput × Outcome
unfolding other_policy_set default_deploy decide lookup
apply_rule set_id out rule =
    let new = with_default rule.decision in
    if other_policy_set set_id new.policy
    then (out, going)
    else decide (record out { policies = out.policies ++ new.policy ∷ [] }) rule.capability new
        (lookup rule.capability out.config_decisions)

-- A loop that a round may leave.
unfoldable pub each {ℓ} :
    {A : Type ℓ}
    → (EvaluatorOutput → A → EvaluatorOutput × Outcome)
    → EvaluatorOutput
    → List A
    → EvaluatorOutput × Outcome
each round out [] = (out, going)
each round out (x ∷ rest) =
    let (next, outcome) = round out x in
    let more = each round next rest in
    elim outcome [ going ↦ more | conflict ↦ (next, conflict) | failed e ↦ (next, failed e) ]

-- The zero value of `EvaluatorOutput`.
abbrev pub no_output : EvaluatorOutput
no_output = record {
  valid = false;
  dataset_id = "";
  uuid = "";
  policy_set_id = "";
  config_decisions = [];
  policies = [];
}

module _ (engine : Engine) where
  -- `none` is a nil error.
  unfoldable pub validate_structure : Value → String → Option String
  validate_structure value uuid = elim (engine.taxonomy_check value) [
    | err e ↦ some e
    | ok [] ↦ none
    | ok (v ∷ vs) ↦ some (engine.invalid_error uuid (v ∷ vs))
  ]

  -- One round of the loop over the expressions of a result.
  unfoldable pub apply_expression :
      WorkloadInfo → EvaluatorOutput → Value → EvaluatorOutput × Outcome
  unfolding validate_structure each apply_rule
  apply_expression workload out value = elim (validate_structure value workload.uuid) [
    | some e ↦ (out, failed e)
    | none ↦ elim (engine.decode value) [
      | err e ↦ (out, failed e)
      | ok rules ↦ each (apply_rule workload.policy_set_id) out rules
    ]
  ]

  -- One round of the loop over the results.
  unfoldable pub apply_result :
      WorkloadInfo → EvaluatorOutput → List Value → EvaluatorOutput × Outcome
  unfolding apply_expression each
  apply_result workload out expressions = each (apply_expression workload) out expressions

  -- The output, which is written to even beside an error, and the error.
  unfoldable pub get_opa_decisions :
      EvaluatorInput → List (List Value) → EvaluatorOutput → EvaluatorOutput × Option String
  unfolding apply_result each
  get_opa_decisions input rs given =
      let out = record given { valid = false } in
      let (last, outcome) = each (apply_result input.workload) out rs in
      if is_empty rs
      then (out, some "invalid opa evaluation - an empty result set has been received")
      else elim outcome [
        | going ↦ (record last { valid = true }, none)
        | conflict ↦ (last, none)
        | failed e ↦ (last, some e)
      ]

  unfoldable pub evaluate : EvaluatorInput → EvaluatorOutput × Option String
  unfolding get_opa_decisions
  evaluate input = elim (engine.prepare_input input) [
    | err e ↦ (no_output, some ("failed to prepare an input for OPA: " <> e))
    | ok fields ↦ elim (engine.eval fields) [
      | err e ↦ (no_output, some ("failed to evaluate a query: " <> e))
      | ok rs ↦ get_opa_decisions input rs (record no_output {
        dataset_id = input.request.dataset_id;
        uuid = input.workload.uuid;
        policy_set_id = input.workload.policy_set_id;
      })
    ]
  ]
