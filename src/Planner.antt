-- ===== src/Planner.antt =====
-- manager/controllers/app/select_modules.go: the data paths between a data source and a workload.
-- `find_paths` is built from `find_paths_within_limit` (Planner/Paths.antt) and `validate`
-- (Planner/Choice.antt), over the tests of this file on modules and interfaces.
pub mod Paths
pub mod Choice
pub mod Dependencies
pub mod Samples
mod Tests
use mesh_for_data.Base.{
  ℕ, String, ◌==◌, is_some, get_or, Bool, true, false, ◌&&◌, ◌||◌, Option, none, some, List, [],
  ◌∷◌,
}
use mesh_for_data.Base.Json.{Fields}
use mesh_for_data.Base.Maps.{Map}
use mesh_for_data.Api.Taxonomy.{
  Action, ActionName, Cluster, GetAssetResponse, InterfaceDetails, ResourceDetails,
}
use mesh_for_data.Api.Module.{
  FybrikModule, ModuleCapability, ModuleInOut, ModuleSupportedAction, asset,
}
use mesh_for_data.Api.Application.{DataContext}
use mesh_for_data.Api.Rules.{EvaluatorOutput}
use mesh_for_data.Policy.{PolicyEnvironment}

pub record DataInfo : Type 0 where
  pub data_details : GetAssetResponse
  pub context : DataContext
  pub configuration : EvaluatorOutput
  pub workload_cluster : Cluster
  pub actions : List Action

-- The fields of `PlotterGenerator` that the selection of modules reads. `nested_string` is the
-- lookup of a text in a JSON object by the path to it, a function of Kubernetes' libraries: its
-- error and its `found` are one error here, as the program takes them alike.
pub record PlotterGenerator : Type 0 where
  pub modules : Map FybrikModule
  pub clusters : List Cluster
  pub policy_manager : PolicyEnvironment
  pub storage_account_regions : List String
  pub nested_string : Fields → List String → Option String

pub record Node : Type 0 where
  pub connection : Option InterfaceDetails
  pub virtual : Bool

-- A pointer to a node is nil while the edge is under construction.
pub record Edge : Type 0 where
  pub source : Option Node
  pub sink : Option Node
  pub fybrik_module : FybrikModule
  pub capability_index : ℕ

pub record ResolvedEdge : Type 0 where
  pub edge : Edge
  pub open edge use *
  pub actions : List Action
  pub cluster : String
  pub storage_account_region : String

pub record Solution : Type 0 where
  pub data_path : List ResolvedEdge

-- The zero value of `ModuleCapability`.
abbrev no_capability : ModuleCapability
no_capability = record {
  capability = "";
  scope = asset;
  supported_interfaces = [];
  api = none;
  actions = [];
  plugins = [];
}

-- `edge.Module.Spec.Capabilities[edge.CapabilityIndex]`. Go panics on an index out of range, which
-- no edge of a data path has.
unfoldable pub capability_of : Edge → ModuleCapability
capability_of edge = get_or edge.fybrik_module.spec.capabilities edge.capability_index no_capability

-- The end of the loop over the actions of a capability.
unfoldable pub any_named : ActionName → List ModuleSupportedAction → Bool
any_named name [] = false
any_named name (act ∷ acts) = act.name == name || any_named name acts

unfoldable pub supports_governance_action : Edge → Action → Bool
unfolding capability_of any_named
supports_governance_action edge action = any_named action.name (capability_of edge).actions

unfoldable pub supports_governance_actions : Edge → List Action → Bool
supports_governance_actions edge [] = true
supports_governance_actions edge (action ∷ rest) =
    supports_governance_action edge action && supports_governance_actions edge rest

unfoldable pub match : Option InterfaceDetails → Option InterfaceDetails → Bool
match none sink = false
match (some source) none = false
match (some source) (some sink) =
    source.data_format == sink.data_format && source.protocol == sink.protocol

-- The interface of a module's own API, at a virtual node.
unfoldable pub api_matches : Option ResourceDetails → Node → Bool
unfolding match
api_matches none node = false
api_matches (some api) node =
    node.virtual
    && match (some (record { protocol = api.connection.name; data_format = api.data_format }))
        node.connection

unfoldable pub any_source : List ModuleInOut → Node → Bool
unfolding match
any_source [] node = false
any_source (inter ∷ rest) node =
    is_some inter.source && match inter.source node.connection || any_source rest node

unfoldable pub any_sink : List ModuleInOut → Node → Bool
unfolding match
any_sink [] node = false
any_sink (inter ∷ rest) node =
    is_some inter.sink && match inter.sink node.connection || any_sink rest node

unfoldable pub supports_source_interface : Edge → Node → Bool
unfolding capability_of api_matches any_source
supports_source_interface edge source =
    let capability = capability_of edge in
    api_matches capability.api source || any_source capability.supported_interfaces source

unfoldable pub supports_sink_interface : Edge → Node → Bool
unfolding capability_of api_matches any_sink
supports_sink_interface edge sink =
    let capability = capability_of edge in
    api_matches capability.api sink || any_sink capability.supported_interfaces sink
