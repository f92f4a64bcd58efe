-- ===== src/Planner/Choice/Found.antt =====
-- The solutions that `find_paths` of Planner/Choice.antt returns.
use mathlib.Core.List.Memᴰ
use mathlib.Core.Option.{some-injective}
use mesh_for_data.Base.{
  ℕ, ◌≤◌, max, ◌≡◌, refl, sym, ap, ◌∙◌, subst, true, false, Bool-cases, inl, inr, some,
  Option-cases, List, [], ◌∷◌, map, Memᴰ, arith, length, All, All-append, is_empty,
}
use mesh_for_data.Api.Taxonomy.{Action, Capability}
use mesh_for_data.Api.Application.{FybrikApplication}
use mesh_for_data.Api.Rules.{Decision}
use mesh_for_data.Planner.{DataInfo, Node, PlotterGenerator, ResolvedEdge, Solution}
use mesh_for_data.Planner.Paths.Spec.{IsDataPath, direct, extend}
use mesh_for_data.Planner.Paths.Sound.{find_paths_within_limit-IsDataPath}
use mesh_for_data.Planner.Choice.{
  capability_on_path, destination_node, find_paths, is_virtual, must_deploy, required_on_path,
  resolve_path, source_node, valid_solutions, validate,
}
use mesh_for_data.Planner.Choice.Placement.{IsPlaced, IsStored}
use mesh_for_data.Planner.Choice.Resolve.{
  IsFresh, PerformedOn, Resolves, Resolves-edges, Resolves-mem, Resolves-performed,
  required_on_path-mem, resolve_path-Resolves,
}

eq-nil_of_is_empty : (l : List Action) → is_empty l ≡ true → l ≡ []
eq-nil_of_is_empty [] h = refl
eq-nil_of_is_empty (a ∷ l) h = cc

module _ (p : PlotterGenerator) (item : DataInfo) where
  IsDataPath-IsFresh :
      {source sink : Node} {path : List ResolvedEdge}
      → IsDataPath p item source sink path
      → IsFresh path
  IsDataPath-IsFresh (direct sink m i c path serves reads e) =
      subst (All (λ (e : ResolvedEdge). e.storage_account_region ≡ "")) (sym e) (refl, tt)
  IsDataPath-IsFresh (extend sink m i c inter shorter path serves mem rest e) =
      subst (All (λ (e : ResolvedEdge). e.storage_account_region ≡ "")) (sym e)
        (All-append _ shorter _ (IsDataPath-IsFresh rest) (refl, tt))

module _ (p : PlotterGenerator) (item : DataInfo) (application : FybrikApplication) where
  -- The new solution is the old one with its elements resolved, and all actions performed.
  record IsValidated (old s : Solution) : Type 0 where
    resolves : Resolves p item application item.actions [] old.data_path s.data_path
    has_required : required_on_path s.data_path item.configuration.config_decisions ≡ true

  validate-IsValidated :
      (old s : Solution)
      → IsFresh old.data_path
      → validate p item old application ≡ some s
      → IsValidated old s
  unfolding validate
  validate-IsValidated old s fresh h =
      elim (Option-cases (resolve_path p item application item.actions old.data_path)) [
        | inl stop ↦ absurd (ground arith)
        | inr ((path, left), r) ↦ elim (Bool-cases (is_empty left)) [
          | inr n ↦ absurd (ground arith)
          | inl y ↦ elim (Bool-cases (required_on_path path item.configuration.config_decisions)) [
            | inr n ↦ absurd (ground arith)
            | inl q ↦
                let same : some (record { data_path = path }) ≡ some s = ground arith in
                subst (IsValidated old) (some-injective _ _ same) (record {
                  resolves =
                      subst (λ l. Resolves p item application item.actions l old.data_path path)
                        (eq-nil_of_is_empty left y)
                        (resolve_path-Resolves p item application item.actions left old.data_path
                          path fresh r);
                  has_required = q;
                })
          ]
        ]
      ]

  valid_solutions-mem :
      (l : List Solution) (s : Solution)
      → Memᴰ s (valid_solutions p item l application)
      → (old : Solution) × Memᴰ old l × (validate p item old application ≡ some s)
  unfolding valid_solutions
  valid_solutions-mem [] s m = absurd (Memᴰ.not-nil m)
  valid_solutions-mem (x ∷ l) s m = elim (Option-cases (validate p item x application)) [
    | inl out ↦
        let (old, k, v) = valid_solutions-mem l s (rw (out, valid_solutions) at m) in
        (old, Memᴰ.tail k, v)
    | inr (t, v) ↦ elim (Memᴰ.cases_cons (rw (v, valid_solutions) at m)) [
      | inl e ↦ (x, Memᴰ.head refl, v ∙ ap some (sym e))
      | inr k ↦ let (old, j, w) = valid_solutions-mem l s k in (old, Memᴰ.tail j, w)
    ]
  ]

  -- The nodes between which the search runs.
  abbrev pub source : Node
  source = source_node item

  abbrev pub sink : Node
  sink = destination_node item application

  record IsFound (bound : ℕ) (s : Solution) : Type 0 where
    old : Solution
    path : IsDataPath p item source sink old.data_path
    short : length old.data_path ≤ max 1 bound
    validated : IsValidated old s

  find_paths-IsFound :
      (bound : ℕ) (s : Solution) → Memᴰ s (find_paths p bound item application) → IsFound bound s
  unfolding find_paths
  find_paths-IsFound bound s m =
      let (old, k, v) = valid_solutions-mem _ s m in
      let (path, short) = find_paths_within_limit-IsDataPath p item source bound sink old k in
      record {
        old = old;
        path = path;
        short = short;
        validated = validate-IsValidated old s (IsDataPath-IsFresh p item path) v;
      }

  -- A solution is a data path from the source to the workload, within the limit, with nothing
  -- changed but the actions, the clusters and the regions.
  pub find_paths-IsDataPath :
      (bound : ℕ) (s : Solution)
      → Memᴰ s (find_paths p bound item application)
      → (path : List ResolvedEdge) × IsDataPath p item source sink path
        × (length path ≤ max 1 bound)
        × (map (λ (e : ResolvedEdge). e.edge) s.data_path ≡ map (λ (e : ResolvedEdge). e.edge) path)
  find_paths-IsDataPath bound s m =
      let f = find_paths-IsFound bound s m in
      (f.old.data_path, f.path, f.short, Resolves-edges p item application f.validated.resolves)

  -- Every governance action on the asset is performed, in each solution, by an element of the path
  -- whose capability supports it.
  pub find_paths-performed :
      (bound : ℕ) (s : Solution) (a : Action)
      → Memᴰ s (find_paths p bound item application)
      → Memᴰ a item.actions
      → PerformedOn p item application a s.data_path
  find_paths-performed bound s a m k =
      elim (Resolves-performed p item application a
        (find_paths-IsFound bound s m).validated.resolves k) [
          | inl done ↦ done
          | inr left ↦ absurd (Memᴰ.not-nil left)
        ]

  -- In each solution every element runs in a cluster of the deployment that meets the cluster
  -- restrictions on its capability, and those on transformations where the element has actions.
  pub find_paths-IsPlaced :
      (bound : ℕ) (s : Solution) (e : ResolvedEdge)
      → Memᴰ s (find_paths p bound item application)
      → Memᴰ e s.data_path
      → IsPlaced p item e
  find_paths-IsPlaced bound s e m k =
      (Resolves-mem p item application e (find_paths-IsFound bound s m).validated.resolves k).0

  -- In each solution every element that writes to a data store has a region of the storage accounts
  -- for which the policy manager's answer was not a denial of writing, its capability supports all
  -- actions of that answer, and the element performs them.
  pub find_paths-IsStored :
      (bound : ℕ) (s : Solution) (e : ResolvedEdge)
      → Memᴰ s (find_paths p bound item application)
      → Memᴰ e s.data_path
      → is_virtual e.sink ≡ false
      → IsStored p item application e
  find_paths-IsStored bound s e m k real =
      elim (Resolves-mem p item application e (find_paths-IsFound bound s m).validated.resolves
        k).1 [ inl v ↦ cc | inr stored ↦ stored ]

  -- Every capability that the configuration policies require is on the path of each solution.
  pub find_paths-required :
      (bound : ℕ) (s : Solution) (capability : Capability) (d : Decision)
      → Memᴰ s (find_paths p bound item application)
      → Memᴰ (capability, d) item.configuration.config_decisions
      → must_deploy d ≡ true
      → capability_on_path capability s.data_path ≡ true
  find_paths-required bound s capability d m k r =
      required_on_path-mem p item application s.data_path item.configuration.config_decisions
        (find_paths-IsFound bound s m).validated.has_required capability d k r
