-- ===== src/Config/Decided.antt =====
-- What `evaluate` of Config/Policies.antt decides where it gives no error and a valid output.
use mesh_for_data.Base.{◌≡◌, subst, true, false, inl, inr, none, List, All, arith, Result-cases, ok}
use mesh_for_data.Base.Json.{Fields, Value}
use mesh_for_data.Api.Rules.{DecisionPerCapability, EvaluatorOutput}
use mesh_for_data.Config.{Engine, EvaluatorInput}
use mesh_for_data.Config.Policies.{
  apply_result, each, evaluate, get_opa_decisions, going, no_output,
}
use mesh_for_data.Config.Loops.{HasMaps, IsRead, results-IsRead, results_valid}

-- How a result set without error, whose output is valid, came about.
get_opa_decisions_last :
    (engine : Engine) (input : EvaluatorInput) (rs : List (List Value))
    (given out : EvaluatorOutput)
    → get_opa_decisions engine input rs given ≡ (out, none)
    → out.valid ≡ true
    → (last : EvaluatorOutput) × (each
          (apply_result engine input.workload)
          (record given { valid = false })
          rs
        ≡ (last, going))
      × (record last { valid = true } ≡ out)
unfolding get_opa_decisions
get_opa_decisions_last engine input rs given out h valid =
    let start = record given { valid = false } in
    let invalid = results_valid engine input.workload start rs in
    (
      (each (apply_result engine input.workload) start rs).0,
      ground (arith, invalid),
      ground (arith, invalid),
    )

-- If the evaluation gives no error and a valid output, then the input was prepared and OPA answered,
-- and every rule of the answer that is not for another policy set is honored by the output's
-- decision on the rule's capability: the decision requires (or forbids) the deployment if the rule
-- does, and for each non-empty restriction of the rule it leaves some of the values that the rule
-- allows and no other. The condition is that the decoded restrictions are maps.
pub evaluate-IsServed :
    (engine : Engine)
    → ((value : Value) (rules : List DecisionPerCapability)
        → engine.decode value ≡ ok rules
        → All HasMaps rules)
    → (input : EvaluatorInput) (out : EvaluatorOutput) → evaluate engine input ≡ (out, none)
    → out.valid ≡ true
    → (fields : Fields) × (rs : List (List Value)) × (engine.prepare_input input ≡ ok fields)
      × (engine.eval fields ≡ ok rs)
      × All (All (IsRead engine input.workload.policy_set_id out)) rs
unfolding evaluate
evaluate-IsServed engine codec input out h valid =
    elim (Result-cases (engine.prepare_input input)) [
      | inr (e, bad) ↦ absurd (ground arith)
      | inl (fields, prepared) ↦ elim (Result-cases (engine.eval fields)) [
        | inr (e, bad) ↦ absurd (ground arith)
        | inl (rs, answered) ↦
            let given = record no_output {
              dataset_id = input.request.dataset_id;
              uuid = input.workload.uuid;
              policy_set_id = input.workload.policy_set_id;
            } in
            let (last, run, same) =
              get_opa_decisions_last engine input rs given out (ground arith) valid in
            (
              fields,
              rs,
              prepared,
              answered,
              subst (λ x. All (All (IsRead engine input.workload.policy_set_id x)) rs) same
                  (results-IsRead engine codec input.workload (record given { valid = false }) rs
                    last run),
            )
      ]
    ]
