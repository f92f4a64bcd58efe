-- ===== src/Blueprints/Steps.antt =====
-- The part of manager/controllers/app/plotter_controller.go that makes the module instances of a
-- plotter and their blueprints: addCredentials, convertPlotterModuleToBlueprintModule and
-- getBlueprintsMap. The clusters that the cluster manager gives are a parameter. A nil pointer that
-- the code would follow makes the whole result `none`.
use mesh_for_data.Base.{
  String, ◌==◌, ◌<>◌, if◌then◌else◌, and_then, map_some, not, Option, none, some, List, [], ◌∷◌,
  ◌++◌,
}
use mesh_for_data.Base.Maps.{Map, lookup, get_or_zero}
use mesh_for_data.Api.Taxonomy.{
  Cluster, DataFlow, DataStore, Vault, flow_name, no_connection, read_flow, write_flow, copy_flow,
  delete_flow,
}
use mesh_for_data.Api.Module.{CapabilityScope, ChartSpec}
use mesh_for_data.Api.Blueprint.{BlueprintSpec, ModuleArguments}
use mesh_for_data.Api.Plotter.{
  DataFlowStep, Flow, ModuleInfo, Plotter, StepParameters, StepSink, StepSource, SubFlow,
}
use mesh_for_data.Blueprints.{ModuleInstanceSpec, generate_blueprints}

pub record PlotterModulesSpec : Type 0 where
  pub cluster_name : String
  pub vault_auth_path : String
  pub asset_id : String
  pub module_name : String
  pub module_arguments : Option StepParameters
  pub flow_type : DataFlow
  pub chart : ChartSpec
  pub scope : CapabilityScope

abbrev pub no_vault : Vault
no_vault = record { role = ""; secret_path = ""; address = ""; auth_path = "" }

unfoldable pub add_credentials : DataStore → String → DataFlow → DataStore
unfolding lookup
add_credentials store vault_auth_path flow =
    let key = flow_name flow in
    record store {
      vault =
          (key, record (get_or_zero no_vault key store.vault) { auth_path = vault_auth_path }) ∷ [];
    }

-- `plotter.Spec.Assets[id].DataStore`
unfoldable pub asset_store : Plotter → String → DataStore
unfolding lookup
asset_store plotter id = elim (lookup id plotter.spec.assets) [
  | none ↦ record { vault = []; connection = no_connection; format = "" }
  | some details ↦ details.data_store
]

-- The data store that a step reads from.
unfoldable pub source_store : Plotter → PlotterModulesSpec → Option StepSource → Option DataStore
unfolding asset_store add_credentials
source_store plotter m none = none
source_store plotter m (some source) =
    if not (source.asset_id == "")
    then some (add_credentials (asset_store plotter source.asset_id) m.vault_auth_path read_flow)
    else map_some
        (λ api. record { vault = []; connection = api.connection; format = api.data_format })
        source.api

-- The data store that a step writes to.
unfoldable pub sink_store : Plotter → PlotterModulesSpec → Option StepSink → Option DataStore
unfolding asset_store add_credentials
sink_store plotter m none = none
sink_store plotter m (some sink) =
    some (add_credentials (asset_store plotter sink.asset_id) m.vault_auth_path write_flow)

-- The arguments of the module for a flow.
unfoldable pub flow_arguments :
    Plotter
    → PlotterModulesSpec
    → StepParameters
    → DataFlow
    → ModuleArguments
    → Option ModuleArguments
unfolding source_store sink_store
flow_arguments plotter m p read_flow args = and_then (source_store plotter m p.source) (λ source.
    some (record args {
      read = record { source = source; asset_id = m.asset_id; transformations = p.actions } ∷ [];
    }))
flow_arguments plotter m p write_flow args = and_then (sink_store plotter m p.sink) (λ destination.
    some (record args {
      write =
          record { destination = destination; asset_id = m.asset_id; transformations = p.actions }
          ∷ [];
    }))
flow_arguments plotter m p copy_flow args = and_then (source_store plotter m p.source) (λ source.
    and_then (sink_store plotter m p.sink) (λ destination. some (record args {
      copy = some (record {
        source = source;
        destination = destination;
        asset_id = m.asset_id;
        transformations = p.actions;
      });
    })))
flow_arguments plotter m p delete_flow args = some args

abbrev pub no_arguments : Plotter → ModuleArguments
no_arguments plotter = record {
  labels = plotter.labels;
  app_selector = plotter.spec.selector;
  copy = none;
  read = [];
  write = [];
}

unfoldable pub convert_plotter_module : Plotter → PlotterModulesSpec → Option ModuleInstanceSpec
unfolding flow_arguments
convert_plotter_module plotter m =
    let args = no_arguments plotter in
    let filled : Option ModuleArguments = elim m.module_arguments [
      | none ↦ some args
      | some p ↦ flow_arguments plotter m p m.flow_type args
    ] in
    map_some
      (λ a. record {
        chart = m.chart;
        args = a;
        asset_ids = m.asset_id ∷ [];
        cluster_name = m.cluster_name;
        module_name = m.module_name;
        scope = m.scope;
      })
      filled

-- `utils.GetAuthPath`
unfoldable pub get_auth_path : String → String
get_auth_path auth_path = if auth_path == "" then "" else "/v1/auth/" <> auth_path <> "/login"

-- The path for the first cluster of the name.
unfoldable pub cluster_auth_path : List Cluster → String → String
unfolding get_auth_path
cluster_auth_path [] cluster_name = ""
cluster_auth_path (c ∷ rest) cluster_name =
    let later = cluster_auth_path rest cluster_name in
    if cluster_name == c.name then get_auth_path c.metadata.vault_auth_path else later

-- `append` of what each round of a loop gives, up to a nil pointer.
unfoldable pub gather {ℓ κ} :
    {A : Type ℓ} {B : Type κ} → (A → Option (List B)) → List A → Option (List B)
gather f [] = some []
gather f (x ∷ rest) =
    let more = gather f rest in and_then (f x) (λ one. map_some (λ others. one ++ others) more)

module _ (clusters : List Cluster) (plotter : Plotter) where
  -- A plugin is given no arguments.
  unfoldable pub plotter_module : Flow → SubFlow → DataFlowStep → ModuleInfo → PlotterModulesSpec
  unfolding cluster_auth_path
  plotter_module flow sub_flow step m = record {
    cluster_name = step.cluster;
    vault_auth_path = cluster_auth_path clusters step.cluster;
    asset_id = flow.asset_id;
    module_name = m.name;
    module_arguments = if m.type == "plugin" then none else step.parameters;
    flow_type = sub_flow.flow_type;
    chart = m.chart;
    scope = m.scope;
  }

  -- The modules of a template; a missing template has none.
  unfoldable pub template_modules : String → List ModuleInfo
  unfolding lookup
  template_modules name = elim (lookup name plotter.spec.templates) [
    | none ↦ []
    | some t ↦ t.modules
  ]

  unfoldable pub step_instances : Flow → SubFlow → DataFlowStep → Option (List ModuleInstanceSpec)
  unfolding gather template_modules convert_plotter_module plotter_module
  step_instances flow sub_flow step =
      gather
        (λ m.
          map_some (λ i. i ∷ [])
            (convert_plotter_module plotter (plotter_module flow sub_flow step m)))
        (template_modules step.template)

  -- The instances of all modules of all steps, in the order of the loops.
  unfoldable pub module_instances : Option (List ModuleInstanceSpec)
  unfolding gather step_instances
  module_instances =
      gather
        (λ flow.
          gather
            (λ sub_flow.
              gather (λ steps. gather (λ step. step_instances flow sub_flow step) steps)
                sub_flow.steps)
            flow.sub_flows)
        plotter.spec.flows

  unfoldable pub get_blueprints_map : (String → String) → Option (Map BlueprintSpec)
  unfolding module_instances generate_blueprints
  get_blueprints_map hash =
      map_some (λ instances. generate_blueprints hash instances plotter) module_instances
