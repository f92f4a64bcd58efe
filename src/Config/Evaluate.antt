-- ===== src/Config/Evaluate.antt =====
-- What one decision on a capability in Config/Policies.antt makes of the output: all that was decided is kept.
use mathlib.Core.Option.{some-injective}
use mesh_for_data.Base.{
  String, ◌==◌, ◌≡◌, refl, sym, ap, ◌∙◌, subst, Bool-cases, inl, inr, Option, none, some, List, All,
  All-map, arith, eq_iff, eq_refl, is_empty,
}
use mesh_for_data.Base.Maps.{insert, lookup, lookup-insert}
use mesh_for_data.Api.Rules.{Decision, EvaluatorOutput, Restriction}
use mesh_for_data.Config.{entries, merge}
use mesh_for_data.Config.Policies.{Outcome, add_to, decide, going}
use mesh_for_data.Config.Merge.{Honors, merge-Honors, merge-Honors_new}
use mesh_for_data.Config.Narrow.{All-mems, Narrows, NarrowsAll}

-- Each entry is the one that its key finds, as in every Go map.
abbrev pub IsMap : Restriction → Type 0
IsMap r = All (λ (e : String × List String). lookup e.0 r ≡ some e.1) r

pub record AreMaps (d : Decision) : Type 0 where
  pub clusters : IsMap (entries d.deployment_restrictions.clusters)
  pub modules : IsMap (entries d.deployment_restrictions.modules)
  pub storage_accounts : IsMap (entries d.deployment_restrictions.storage_accounts)

-- The output has a decision on the capability that honors the given one.
abbrev pub IsHonored : EvaluatorOutput → String → Decision → Type 0
IsHonored out capability asked =
    (d : Decision) × (lookup capability out.config_decisions ≡ some d) × Honors asked d

-- The later output honors what the earlier one does.
abbrev pub Keeps : EvaluatorOutput → EvaluatorOutput → Type 0
Keeps out later =
    (capability : String) (asked : Decision)
    → IsHonored out capability asked
    → IsHonored later capability asked

lookup-Narrows :
    (r : Restriction) (key : String) (values : List String)
    → lookup key r ≡ some values
    → Narrows r key values
lookup-Narrows r key values e = elim (Bool-cases (is_empty values)) [
  | inl nothing ↦ inl nothing
  | inr found ↦ rw e (inr (found, All-mems values values (λ v m. m)))
]

IsMap-NarrowsAll : (r : Restriction) → IsMap r → NarrowsAll r r
IsMap-NarrowsAll r h =
    All-map (λ (e : String × List String). lookup e.0 r ≡ some e.1)
      (λ (e : String × List String). Narrows r e.0 e.1) r (λ e. lookup-Narrows r e.0 e.1) h

pub AreMaps-Honors : (d : Decision) → AreMaps d → Honors d d
AreMaps-Honors d h = record {
  deploy = inr refl;
  clusters = IsMap-NarrowsAll (entries d.deployment_restrictions.clusters) h.clusters;
  modules = IsMap-NarrowsAll (entries d.deployment_restrictions.modules) h.modules;
  storage_accounts =
      IsMap-NarrowsAll (entries d.deployment_restrictions.storage_accounts) h.storage_accounts;
}

-- Another decision on the capability of a map of decisions.
IsHonored-insert :
    (out later : EvaluatorOutput) (capability : String) (d : Decision)
    → later.config_decisions ≡ insert capability d out.config_decisions
    → ((asked : Decision) → IsHonored out capability asked → Honors asked d)
    → Keeps out later
IsHonored-insert out later capability d e keep other asked h =
    elim (Bool-cases (capability == other)) [
      | inl same ↦
          let here : lookup other later.config_decisions ≡ some d =
            ap (lookup other) e
            ∙ lookup-insert out.config_decisions capability other d
            ∙ ground (arith) in
          (
            d,
            here,
            keep asked
                (subst (λ c. IsHonored out c asked) (sym ((eq_iff capability other).0 same)) h),
          )
      | inr apart ↦ (
        h.0,
        ap (lookup other) e ∙ lookup-insert out.config_decisions capability other d ∙ rw apart h.1,
        h.2,
      )
    ]

module _ (out : EvaluatorOutput) (capability : String) (new : Decision) (maps : AreMaps new) where
  -- What a round makes of the output.
  abbrev pub Decided : EvaluatorOutput → Type 0
  Decided later = Keeps out later × IsHonored later capability new

  pub decide-Decided :
      (o : Option Decision) (later : EvaluatorOutput)
      → lookup capability out.config_decisions ≡ o
      → decide out capability new o ≡ (later, going)
      → Decided later
  unfolding decide add_to
  decide-Decided none later free h =
      let next = record out { config_decisions = insert capability new out.config_decisions } in
      let found : lookup capability next.config_decisions ≡ some new =
        lookup-insert out.config_decisions capability capability new
        ∙ rw (eq_refl capability) refl in
      let before : (asked : Decision) → IsHonored out capability asked → Honors asked new =
        λ asked k. absurd (let e = k.1 in cc) in
      subst Decided (ap (λ (x : EvaluatorOutput × Outcome). x.0) h) (
        IsHonored-insert out next capability new refl before,
        (new, found, AreMaps-Honors new maps),
      )
  decide-Decided (some old) later taken h = elim (Bool-cases (merge new old).valid) [
    | inr clash ↦ absurd (ground arith)
    | inl valid ↦
        let d = (merge new old).decision in
        let next = record out { config_decisions = insert capability d out.config_decisions } in
        let same : next ≡ later = ground arith in
        let found : lookup capability next.config_decisions ≡ some d =
          lookup-insert out.config_decisions capability capability d
          ∙ rw (eq_refl capability) refl in
        let before : (asked : Decision) → IsHonored out capability asked → Honors asked d =
          λ asked k.
            (merge-Honors asked new old valid
              (subst (Honors asked) (some-injective _ _ (sym k.1 ∙ taken)) k.2)).1 in
        subst Decided same (
          IsHonored-insert out next capability d refl before,
          (d, found, merge-Honors_new new old valid),
        )
  ]
