-- ===== src/Config/Loops.antt =====
-- The loops of Config/Policies.antt over results, expressions and rules: each rule that they reach is served.
use mesh_for_data.Base.{
  String, ◌≡◌, refl, subst, true, Bool-cases, inl, inr, ◌⊎◌, Option-cases, List, [], ◌∷◌, ◌++◌, All,
  All-map, arith, Result-cases, ok,
}
use mesh_for_data.Base.Json.{Value}
use mesh_for_data.Base.Maps.{lookup}
use mesh_for_data.Api.Rules.{DecisionPerCapability, EvaluatorOutput}
use mesh_for_data.Config.{Engine, WorkloadInfo}
use mesh_for_data.Config.Policies.{
  Outcome, add_to, apply_expression, apply_result, apply_rule, decide, each, going,
  other_policy_set, validate_structure, with_default,
}
use mesh_for_data.Config.Evaluate.{AreMaps, IsHonored, Keeps, decide-Decided}

each_cons {ℓ} :
    {A : Type ℓ} (round : EvaluatorOutput → A → EvaluatorOutput × Outcome) (out : EvaluatorOutput)
    (x : A) (rest : List A) (later : EvaluatorOutput)
    → each round out (x ∷ rest) ≡ (later, going)
    → (next : EvaluatorOutput) × (round out x ≡ (next, going))
      × (each round next rest ≡ (later, going))
unfolding each
each_cons round out x rest later h = ((round out x).0, ground arith, ground arith)

-- A loop over rounds that keep what is decided and serve their element serves all elements.
module _ {ℓ κ ι} {A : Type ℓ} (Fine : A → Type κ) (Served : EvaluatorOutput → A → Type ι)
    (round : EvaluatorOutput → A → EvaluatorOutput × Outcome)
    (serve : (out : EvaluatorOutput) (x : A) (later : EvaluatorOutput)
      → Fine x
      → round out x ≡ (later, going)
      → Keeps out later × Served later x)
    (stay : (out later : EvaluatorOutput) (x : A)
      → Keeps out later
      → Served out x
      → Served later x) where
  each-Served :
      (out : EvaluatorOutput) (xs : List A) (later : EvaluatorOutput)
      → All Fine xs
      → each round out xs ≡ (later, going)
      → Keeps out later × All (Served later) xs
  each-Served out [] later fine h =
      let same : out ≡ later = unfold each in ground arith in
      (subst (Keeps out) same (λ capability asked k. k), tt)
  each-Served out (x ∷ rest) later fine h =
      let (next, one, more) = each_cons round out x rest later h in
      let (kept, served) = serve out x next fine.0 one in
      let (kept_on, all) = each-Served next rest later fine.1 more in
      (
        λ capability asked k. kept_on capability asked (kept capability asked k),
        (stay next later x kept_on served, all),
      )

-- A rule of another policy set is left out, and any other is honored.
abbrev pub IsServed : String → EvaluatorOutput → DecisionPerCapability → Type 0
IsServed set_id out rule =
    (other_policy_set set_id (with_default rule.decision).policy ≡ true)
    ⊎ IsHonored out rule.capability (with_default rule.decision)

IsServed-Keeps :
    (set_id : String) (out later : EvaluatorOutput) (rule : DecisionPerCapability)
    → Keeps out later
    → IsServed set_id out rule
    → IsServed set_id later rule
IsServed-Keeps set_id out later rule k (inl other) = inl other
IsServed-Keeps set_id out later rule k (inr h) =
    inr (k rule.capability (with_default rule.decision) h)

-- The maps of restrictions of the rule are maps.
abbrev pub HasMaps : DecisionPerCapability → Type 0
HasMaps rule = AreMaps (with_default rule.decision)

apply_rule-IsServed :
    (set_id : String) (out : EvaluatorOutput) (rule : DecisionPerCapability)
    (later : EvaluatorOutput)
    → HasMaps rule
    → apply_rule set_id out rule ≡ (later, going)
    → Keeps out later × IsServed set_id later rule
apply_rule-IsServed set_id out rule later maps h =
    let new = with_default rule.decision in
    elim (Bool-cases (other_policy_set set_id new.policy)) [
      | inl other ↦
          let same : out ≡ later = unfold apply_rule in ground arith in
          (subst (Keeps out) same (λ capability asked k. k), inl other)
      | inr ours ↦
          let noted = record out { policies = out.policies ++ new.policy ∷ [] } in
          let decided : decide noted rule.capability new
                (lookup rule.capability out.config_decisions)
              ≡ (later, going) =
            unfold apply_rule in ground arith in
          let (kept, honored) =
            decide-Decided noted rule.capability new maps
              (lookup rule.capability out.config_decisions) later refl decided in
          (λ capability asked k. kept capability asked k, inr honored)
    ]

All-trivial {ℓ} : {A : Type ℓ} (xs : List A) → All {ℓ, 0} (λ _. Unit) xs
All-trivial [] = tt
All-trivial (x ∷ xs) = (tt, All-trivial xs)

-- The value was decoded to rules, and each of them is served.
abbrev pub IsRead : Engine → String → EvaluatorOutput → Value → Type 0
IsRead engine set_id out value =
    (rules : List DecisionPerCapability) × (engine.decode value ≡ ok rules)
    × All (IsServed set_id out) rules

module _ (engine : Engine)
    (codec : (value : Value) (rules : List DecisionPerCapability)
      → engine.decode value ≡ ok rules
      → All HasMaps rules)
    (workload : WorkloadInfo) where
  IsRead-Keeps :
      (out later : EvaluatorOutput) (value : Value)
      → Keeps out later
      → IsRead engine workload.policy_set_id out value
      → IsRead engine workload.policy_set_id later value
  IsRead-Keeps out later value k (rules, decoded, served) = (
    rules,
    decoded,
    All-map (IsServed workload.policy_set_id out) (IsServed workload.policy_set_id later) rules
        (λ rule. IsServed-Keeps workload.policy_set_id out later rule k) served,
  )

  apply_expression_rules :
      (out : EvaluatorOutput) (value : Value) (later : EvaluatorOutput)
      → apply_expression engine workload out value ≡ (later, going)
      → (rules : List DecisionPerCapability) × (engine.decode value ≡ ok rules)
        × (each (apply_rule workload.policy_set_id) out rules ≡ (later, going))
  unfolding apply_expression
  apply_expression_rules out value later h =
      elim (Option-cases (validate_structure engine value workload.uuid)) [
        | inr (e, bad) ↦ absurd (ground arith)
        | inl valid ↦ elim (Result-cases (engine.decode value)) [
          | inr (e, bad) ↦ absurd (ground arith)
          | inl (rules, decoded) ↦ (rules, decoded, ground arith)
        ]
      ]

  apply_expression-IsRead :
      (out : EvaluatorOutput) (value : Value) (later : EvaluatorOutput)
      → apply_expression engine workload out value ≡ (later, going)
      → Keeps out later × IsRead engine workload.policy_set_id later value
  apply_expression-IsRead out value later h =
      let (rules, decoded, run) = apply_expression_rules out value later h in
      let (kept, served) =
        each-Served HasMaps (IsServed workload.policy_set_id) (apply_rule workload.policy_set_id)
          (apply_rule-IsServed workload.policy_set_id)
          (λ one other rule k. IsServed-Keeps workload.policy_set_id one other rule k) out rules
          later (codec value rules decoded) run in
      (kept, (rules, decoded, served))

  apply_result-IsRead :
      (out : EvaluatorOutput) (values : List Value) (later : EvaluatorOutput)
      → apply_result engine workload out values ≡ (later, going)
      → Keeps out later × All (IsRead engine workload.policy_set_id later) values
  unfolding apply_result
  apply_result-IsRead out values later h =
      each-Served (λ _. Unit) (IsRead engine workload.policy_set_id)
        (apply_expression engine workload)
        (λ one value other _ run. apply_expression-IsRead one value other run) IsRead-Keeps out
        values later (All-trivial values) h

  pub results-IsRead :
      (out : EvaluatorOutput) (rs : List (List Value)) (later : EvaluatorOutput)
      → each (apply_result engine workload) out rs ≡ (later, going)
      → All (All (IsRead engine workload.policy_set_id later)) rs
  results-IsRead out rs later h =
      (each-Served (λ _. Unit) (λ last. All (IsRead engine workload.policy_set_id last))
        (apply_result engine workload)
        (λ one values other _ run. apply_result-IsRead one values other run)
        (λ one other values k.
          All-map (IsRead engine workload.policy_set_id one)
            (IsRead engine workload.policy_set_id other) values
            (λ value. IsRead-Keeps one other value k))
        out rs later (All-trivial rs) h).1

-- No round of a loop makes the output valid.
module _ {ℓ} {A : Type ℓ} (round : EvaluatorOutput → A → EvaluatorOutput × Outcome)
    (same : (out : EvaluatorOutput) (x : A) → (round out x).0.valid ≡ out.valid) where
  each_valid : (out : EvaluatorOutput) (xs : List A) → (each round out xs).0.valid ≡ out.valid
  unfolding each
  each_valid out [] = refl
  each_valid out (x ∷ rest) = ground (arith, same out x, each_valid (round out x).0 rest)

apply_rule_valid :
    (set_id : String) (out : EvaluatorOutput) (rule : DecisionPerCapability)
    → (apply_rule set_id out rule).0.valid ≡ out.valid
unfolding apply_rule decide add_to
apply_rule_valid set_id out rule = ground arith

apply_expression_valid :
    (engine : Engine) (workload : WorkloadInfo) (out : EvaluatorOutput) (value : Value)
    → (apply_expression engine workload out value).0.valid ≡ out.valid
unfolding apply_expression
apply_expression_valid engine workload out value =
    elim (Option-cases (validate_structure engine value workload.uuid)) [
      | inr (e, bad) ↦ rw (apply_expression, bad) refl
      | inl valid ↦ elim (Result-cases (engine.decode value)) [
        | inr (e, bad) ↦ rw (apply_expression, valid, bad) refl
        | inl (rules, decoded) ↦
            rw (apply_expression, valid, decoded)
              (each_valid (apply_rule workload.policy_set_id)
                (apply_rule_valid workload.policy_set_id) out rules)
      ]
    ]

pub results_valid :
    (engine : Engine) (workload : WorkloadInfo) (out : EvaluatorOutput) (rs : List (List Value))
    → (each (apply_result engine workload) out rs).0.valid ≡ out.valid
unfolding apply_result
results_valid engine workload out rs =
    each_valid (apply_result engine workload)
      (λ one values.
        each_valid (apply_expression engine workload) (apply_expression_valid engine workload) one
          values)
      out rs
