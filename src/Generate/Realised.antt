-- ===== src/Generate/Realised.antt =====
-- The flow of Generate/Flow.antt against the data path that it is made from.
use mesh_for_data.Base.{
  String, ℕ, ◌≡◌, refl, sym, ap, ◌∙◌, subst, Bool-cases, true, false, ◌⊎◌, inl, inr, Option,
  Option-cases, none, some, List, [], ◌∷◌, ◌++◌, arith, Memᴰ,
}
use mathlib.Core.List.{append-nil, append_assoc}
use mesh_for_data.Api.Taxonomy.{DataStore, ResourceDetails, copy_flow, read_flow}
use mesh_for_data.Api.Application.{FybrikApplication}
use mesh_for_data.Api.Plotter.{DataFlowStep, Flow, PlotterSpec, StepParameters, SubFlow}
use mesh_for_data.Planner.{DataInfo, Node, PlotterGenerator, ResolvedEdge, Solution, capability_of}
use mesh_for_data.Planner.Choice.{find_paths}
use mesh_for_data.Generate.{Generator, Attempt, Stores, done, failed, get_copy_destination, panics}
use mesh_for_data.Generate.Flow.{
  Draft, add_element, add_elements, add_flow_info_for_asset, add_solution, after_copy,
  copy_sub_flow, finish_draft, first_draft, flow_of, last_type, place, read_sub_flow, service_for,
  with_read,
}

pub Attempt-cases {ℓ} :
    {A : Type ℓ} (o : Attempt A)
    → ((a : A) × (o ≡ done a)) ⊎ (((m : String) × (o ≡ failed m)) ⊎ (o ≡ panics))
Attempt-cases (done a) = inl (a, refl)
Attempt-cases (failed m) = inr (inl (m, refl))
Attempt-cases panics = inr (inr refl)

abbrev pub or_draft : Draft → Attempt Draft → Draft
or_draft d (done e) = e
or_draft d _ = d

-- What the step does with the data: it serves it, or copies it to another asset.
abbrev pub IsSink : String → String → SubFlow → StepParameters → Type 0
IsSink id next f params =
    ((f.flow_type ≡ read_flow) × (params.sink ≡ none) × (next ≡ id))
    ⊎ ((f.flow_type ≡ copy_flow) × (params.sink ≡ some (record { asset_id = next })))

-- The sub-flow is one step that runs the capability of the element on its cluster with its actions,
-- from the one asset to the other.
abbrev pub IsStep : ResolvedEdge → String → String → SubFlow → Type 0
IsStep e id next f =
    (step : DataFlowStep) × (params : StepParameters) × (f.steps ≡ (step ∷ []) ∷ [])
    × (step.cluster ≡ e.cluster)
    × (step.template ≡ (capability_of e.edge).capability)
    × (step.parameters ≡ some params)
    × (params.actions ≡ e.actions)
    × (params.source ≡ some (record { asset_id = id; api = none }))
    × IsSink id next f params

-- The sub-flows are the steps of the path, each on the asset that the one before it leaves.
abbrev pub Realises : String → List ResolvedEdge → List SubFlow → Type 0
Realises id [] [] = Unit
Realises id [] (f ∷ fs) = false ≡ true
Realises id (e ∷ es) [] = false ≡ true
Realises id (e ∷ es) (f ∷ fs) = (next : String) × IsStep e id next f × Realises next es fs

module _ {W : Type 0} (g : Generator W) (item : DataInfo) (application : FybrikApplication) where
  -- A round adds one sub-flow, which is the step of the element.
  abbrev IsAdded : ResolvedEdge → Draft → Draft → Type 0
  IsAdded e d n =
      (f : SubFlow) × (n.sub_flows ≡ d.sub_flows ++ f ∷ []) × IsStep e d.dataset_id n.dataset_id f

  read-IsAdded :
      (e : ResolvedEdge) (api : Option ResourceDetails) (d : Draft)
      → IsAdded e d (with_read e api d)
  read-IsAdded e api d = (
    read_sub_flow e d.dataset_id api,
    refl,
    (_, _, refl, refl, refl, refl, refl, refl, inl (refl, refl, refl)),
  )

  after_copy-IsAdded :
      (e : ResolvedEdge) (api : Option ResourceDetails) (o : Attempt DataStore) (d n : Draft)
      → after_copy e api o d ≡ done n
      → IsAdded e d n
  after_copy-IsAdded e api (done store) d n h = subst (IsAdded e d) (ap (or_draft n) h) (
    copy_sub_flow e d.dataset_id api,
    refl,
    (_, _, refl, refl, refl, refl, refl, refl, inr (refl, refl)),
  )
  after_copy-IsAdded e api (failed m) d n h = absurd (ground arith)
  after_copy-IsAdded e api panics d n h = absurd (ground arith)

  place-IsAdded :
      (e : ResolvedEdge) (api : Option ResourceDetails) (sink : Option Node) (s : Stores W)
      (d n : Draft)
      → (place g item application e api sink s d).1 ≡ done n
      → IsAdded e d n
  unfolding place
  place-IsAdded e api none s d n h = absurd (ground arith)
  place-IsAdded e api (some sink) s d n h = elim (Bool-cases sink.virtual) [
    | inl virtual ↦
        let same : done (with_read e api d) ≡ done n = ground arith in
        subst (IsAdded e d) (ap (or_draft n) same) (read-IsAdded e api d)
    | inr real ↦
        after_copy-IsAdded e api
          (get_copy_destination g item sink.connection e.storage_account_region s).1 d n
          (ground arith)
  ]

  add_element-IsAdded :
      (e : ResolvedEdge) (s : Stores W) (d n : Draft)
      → (add_element g item application e s d).1 ≡ done n
      → IsAdded e d n
  unfolding add_element
  add_element-IsAdded e s d n h =
      elim (Attempt-cases (service_for g item application e d.dataset_id)) [
        | inl (api, given) ↦ place-IsAdded e api e.edge.sink s d n (ground arith)
        | inr (inl (m, bad)) ↦ absurd (ground arith)
        | inr (inr bad) ↦ absurd (ground arith)
      ]

  add_elements-Realises :
      (es : List ResolvedEdge) (s : Stores W) (d n : Draft)
      → (add_elements g item application es s d).1 ≡ done n
      → (fs : List SubFlow) × (n.sub_flows ≡ d.sub_flows ++ fs) × Realises d.dataset_id es fs
  unfolding add_elements
  add_elements-Realises [] s d n h = (
    [],
    ap (λ (x : Draft). x.sub_flows) (sym (ap (or_draft n) h)) ∙ sym (append-nil d.sub_flows),
    tt,
  )
  add_elements-Realises (e ∷ rest) s d n h =
      elim (Attempt-cases (add_element g item application e s d).1) [
        | inr (inl (m, bad)) ↦ absurd (ground arith)
        | inr (inr bad) ↦ absurd (ground arith)
        | inl (next, given) ↦
            let (f, added, step) = add_element-IsAdded e s d next given in
            let (fs, more, all) =
              add_elements-Realises rest (add_element g item application e s d).0 next n
                (ground arith) in
            (
              f ∷ fs,
              more ∙ ap (λ l. l ++ fs) added ∙ append_assoc d.sub_flows (f ∷ []) fs,
              (next.dataset_id, step, all),
            )
      ]

  -- The specification has one more flow, for the asset, which realises the path.
  abbrev pub IsExtended : List ResolvedEdge → PlotterSpec → PlotterSpec → Type 0
  IsExtended path old new =
      (f : Flow) × (new.flows ≡ old.flows ++ f ∷ [])
      × (f.asset_id ≡ item.context.data_set_id)
      × Realises item.context.data_set_id path f.sub_flows

  add_solution-IsExtended :
      (selection : Solution) (others : List Solution) (old new : PlotterSpec) (s : Stores W)
      → (add_solution g item application (selection ∷ others) old s).1 ≡ done new
      → IsExtended selection.data_path old new
  unfolding add_solution finish_draft first_draft
  add_solution-IsExtended selection others old new s h =
      let start = first_draft g item application in
      elim (Attempt-cases (add_elements g item application selection.data_path s start).1) [
        | inr (inl (m, bad)) ↦ absurd (ground arith)
        | inr (inr bad) ↦ absurd (ground arith)
        | inl (d, given) ↦
            let (fs, added, all) = add_elements-Realises selection.data_path s start d given in
            elim (Option-cases (last_type d.sub_flows)) [
              | inl bad ↦ absurd (ground arith)
              | inr (type, last) ↦
                  let same : new.flows ≡ old.flows ++ flow_of g item application type d ∷ [] =
                    ground arith in
                  (
                    flow_of g item application type d,
                    same,
                    refl,
                    subst (Realises item.context.data_set_id selection.data_path) (sym added) all,
                  )
            ]
      ]

  first_solution-IsExtended :
      (l : List Solution) (old new : PlotterSpec) (s : Stores W)
      → (add_solution g item application l old s).1 ≡ done new
      → (selection : Solution) × Memᴰ selection l × IsExtended selection.data_path old new
  unfolding add_solution
  first_solution-IsExtended [] old new s h = absurd (ground arith)
  first_solution-IsExtended (selection ∷ others) old new s h =
      (selection, Memᴰ.head refl, add_solution-IsExtended selection others old new s h)

  -- Where `add_flow_info_for_asset` succeeds, the specification gets one more flow, for the asset of the
  -- item, and the flow realises the data path of a solution of `find_paths`: its sub-flows are the
  -- elements of the path in order, each one step that runs the capability of the element on its
  -- cluster with its actions, on the asset that the step before it leaves.
  pub add_flow_info_for_asset-IsExtended :
      (p : PlotterGenerator) (bound : ℕ) (old new : PlotterSpec) (s : Stores W)
      → (add_flow_info_for_asset g item application p bound old s).1 ≡ done new
      → (selection : Solution) × Memᴰ selection (find_paths p bound item application)
        × IsExtended selection.data_path old new
  unfolding add_flow_info_for_asset
  add_flow_info_for_asset-IsExtended p bound old new s h =
      first_solution-IsExtended (find_paths p bound item application) old new s h
