-- ===== src/Generate/Flow.antt =====
-- `AddFlowInfoForAsset` of manager/controllers/app/plotter_generator.go: the flow of the first solution
-- for an asset, with its assets and templates.
use mesh_for_data.Base.{String, ℕ, ◌<>◌, if◌then◌else◌, Option, none, some, List, [], ◌∷◌, ◌++◌}
use mesh_for_data.Base.Maps.{Map, insert}
use mesh_for_data.Api.Taxonomy.{
  DataFlow, DataStore, ResourceDetails, copy_flow, flow_name, read_flow,
}
use mesh_for_data.Api.Application.{FybrikApplication}
use mesh_for_data.Api.Plotter.{
  AssetDetails, DataFlowStep, Flow, PlotterSpec, StepSink, SubFlow, Template, init_trigger,
  workload_trigger,
}
use mesh_for_data.Planner.{DataInfo, Node, PlotterGenerator, ResolvedEdge, Solution, capability_of}
use mesh_for_data.Planner.Choice.{find_paths}
use mesh_for_data.Generate.{
  Generator, Attempt, Stores, done, failed, get_copy_destination, panics, vault_of,
}
use mesh_for_data.Generate.Service.{module_api_to_service}

-- The variables of the loop over the elements of the path.
pub record Draft : Type 0 where
  pub dataset_id : String
  pub assets : Map AssetDetails
  pub templates : List Template
  pub sub_flows : List SubFlow

abbrev pub template_of : ResolvedEdge → Template
template_of e =
    let capability = capability_of e.edge in
    record {
      name = capability.capability;
      modules =
          record {
            name = e.edge.fybrik_module.name;
            type = e.edge.fybrik_module.spec.type;
            chart = e.edge.fybrik_module.spec.chart;
            scope = capability.scope;
          }
          ∷ [];
    }

-- The one step of an element.
abbrev pub step_of : ResolvedEdge → String → Option StepSink → Option ResourceDetails → DataFlowStep
step_of e source sink api = record {
  name = "";
  cluster = e.cluster;
  template = (capability_of e.edge).capability;
  parameters = some (record {
    source = some (record { asset_id = source; api = none });
    sink = sink;
    api = api;
    actions = e.actions;
  });
}

abbrev pub copy_id : String → String
copy_id id = id <> "-copy"

abbrev pub copy_sub_flow : ResolvedEdge → String → Option ResourceDetails → SubFlow
copy_sub_flow e id api = record {
  name = "";
  flow_type = copy_flow;
  triggers = init_trigger ∷ [];
  steps = (step_of e id (some (record { asset_id = copy_id id })) api ∷ []) ∷ [];
}

abbrev pub read_sub_flow : ResolvedEdge → String → Option ResourceDetails → SubFlow
read_sub_flow e id api = record {
  name = "";
  flow_type = read_flow;
  triggers = workload_trigger ∷ [];
  steps = (step_of e id none api ∷ []) ∷ [];
}

-- The draft after a copy: the copy is an asset, from which the path goes on.
abbrev pub with_copy : ResolvedEdge → Option ResourceDetails → DataStore → Draft → Draft
with_copy e api store d = record {
  dataset_id = copy_id d.dataset_id;
  assets =
      insert (copy_id d.dataset_id)
        (record { advertised_asset_id = d.dataset_id; data_store = store }) d.assets;
  templates = d.templates ++ template_of e ∷ [];
  sub_flows = d.sub_flows ++ copy_sub_flow e d.dataset_id api ∷ [];
}

abbrev pub with_read : ResolvedEdge → Option ResourceDetails → Draft → Draft
with_read e api d = record d {
  templates = d.templates ++ template_of e ∷ [];
  sub_flows = d.sub_flows ++ read_sub_flow e d.dataset_id api ∷ [];
}

abbrev pub after_copy :
    ResolvedEdge → Option ResourceDetails → Attempt DataStore → Draft → Attempt Draft
after_copy e api (done store) d = done (with_copy e api store d)
after_copy e api (failed m) d = failed m
after_copy e api panics d = panics

abbrev pub as_service : Attempt ResourceDetails → Attempt (Option ResourceDetails)
as_service (done api) = done (some api)
as_service (failed m) = failed m
as_service panics = panics

-- The type of the last sub-flow.
abbrev pub last_type : List SubFlow → Option DataFlow
last_type [] = none
last_type (s ∷ []) = some s.flow_type
last_type (s ∷ t ∷ rest) = last_type (t ∷ rest)

-- The loop over the templates at the end.
unfoldable pub insert_templates : List Template → Map Template → Map Template
unfolding insert
insert_templates [] m = m
insert_templates (t ∷ rest) m = insert_templates rest (insert t.name t m)

-- The loop over the assets at the end.
unfoldable pub insert_assets : Map AssetDetails → Map AssetDetails → Map AssetDetails
unfolding insert
insert_assets [] m = m
insert_assets ((id, details) ∷ rest) m = insert_assets rest (insert id details m)

module _ {W : Type 0} (g : Generator W) (item : DataInfo) (application : FybrikApplication) where
  unfoldable pub service_for : ResolvedEdge → String → Attempt (Option ResourceDetails)
  unfolding module_api_to_service
  service_for e id =
      let capability = capability_of e.edge in
      elim (capability.api) [
        | none ↦ done none
        | some api ↦
            as_service (
              module_api_to_service g api capability.scope application e.edge.fybrik_module.name id)
      ]

  -- The end of a round, with the address of the service and the sink of the element.
  unfoldable pub place :
      ResolvedEdge
      → Option ResourceDetails
      → Option Node
      → Stores W
      → Draft
      → Stores W × Attempt Draft
  unfolding get_copy_destination insert
  place e api none s d = (s, panics)
  place e api (some sink) s d =
      let (after, store) = get_copy_destination g item sink.connection e.storage_account_region s in
      if sink.virtual then (s, done (with_read e api d)) else (after, after_copy e api store d)

  -- One round of the loop over the elements.
  unfoldable pub add_element : ResolvedEdge → Stores W → Draft → Stores W × Attempt Draft
  unfolding service_for place
  add_element e s d = elim (service_for e d.dataset_id) [
    | done api ↦ place e api e.edge.sink s d
    | failed m ↦ (s, failed m)
    | panics ↦ (s, panics)
  ]

  unfoldable pub add_elements : List ResolvedEdge → Stores W → Draft → Stores W × Attempt Draft
  unfolding add_element
  add_elements [] s d = (s, done d)
  add_elements (e ∷ rest) s d =
      let (after, outcome) = add_element e s d in
      elim outcome [
        | done next ↦ add_elements rest after next
        | failed m ↦ (after, failed m)
        | panics ↦ (after, panics)
      ]

  -- The asset itself, in the data store of its source.
  unfoldable pub first_draft : Draft
  unfolding flow_name insert
  first_draft = record {
    dataset_id = item.context.data_set_id;
    assets =
        insert item.context.data_set_id
          (record {
            advertised_asset_id = "";
            data_store = record {
              vault = (flow_name read_flow, vault_of g item.data_details.credentials) ∷ [];
              connection = item.data_details.details.connection;
              format = item.data_details.details.data_format;
            };
          })
          [];
    templates = [];
    sub_flows = [];
  }

  abbrev pub flow_of : DataFlow → Draft → Flow
  flow_of type d = record {
    name = item.context.data_set_id <> "-" <> flow_name type;
    flow_type = type;
    asset_id = item.context.data_set_id;
    sub_flows = d.sub_flows;
  }

  -- The specification with the draft, if it has a sub-flow.
  unfoldable pub finish_draft : PlotterSpec → Attempt Draft → Attempt PlotterSpec
  unfolding insert_assets insert_templates flow_name
  finish_draft spec (failed m) = failed m
  finish_draft spec panics = panics
  finish_draft spec (done d) = elim (last_type d.sub_flows) [
    | none ↦ panics
    | some type ↦ done (record spec {
      flows = spec.flows ++ flow_of type d ∷ [];
      assets = insert_assets d.assets spec.assets;
      templates = insert_templates d.templates spec.templates;
    })
  ]

  -- The specification with the first of the solutions.
  unfoldable pub add_solution :
      List Solution → PlotterSpec → Stores W → Stores W × Attempt PlotterSpec
  unfolding first_draft add_elements finish_draft
  add_solution [] spec s = (
    s,
    failed (
        "Deployed modules do not provide the functionality required to construct a data path for "
        <> item.context.data_set_id),
  )
  add_solution (selection ∷ others) spec s =
      let (after, outcome) = add_elements selection.data_path s first_draft in
      (after, finish_draft spec outcome)

  -- `AddFlowInfoForAsset`. The planner `p` is the part of the generator that selects modules, and
  -- `bound` the greatest length of a path.
  unfoldable pub add_flow_info_for_asset :
      PlotterGenerator → ℕ → PlotterSpec → Stores W → Stores W × Attempt PlotterSpec
  unfolding find_paths add_solution
  add_flow_info_for_asset p bound spec s = add_solution (find_paths p bound item application) spec s
