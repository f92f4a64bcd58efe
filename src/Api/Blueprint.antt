-- ===== src/Api/Blueprint.antt =====
-- manager/apis/app/v1alpha1/blueprint_types.go
use mesh_for_data.Base.{String, Bool, Option, List, [], ℕ}
use mesh_for_data.Base.Maps.{Map}
use mesh_for_data.Api.Taxonomy.{Action, DataStore}
use mesh_for_data.Api.Module.{ChartSpec}
use mesh_for_data.Api.Application.{ObservedState, no_state, Selector}

pub record CopyModuleArgs : Type 0 where
  pub source : DataStore
  pub destination : DataStore
  pub asset_id : String
  pub transformations : List Action

pub record ReadModuleArgs : Type 0 where
  pub source : DataStore
  pub asset_id : String
  pub transformations : List Action

pub record WriteModuleArgs : Type 0 where
  pub destination : DataStore
  pub asset_id : String
  pub transformations : List Action

-- The application selector is the one of the plotter's `Selector`.
pub record ModuleArguments : Type 0 where
  pub labels : Map String
  pub app_selector : Selector
  pub copy : Option CopyModuleArgs
  pub read : List ReadModuleArgs
  pub write : List WriteModuleArgs

pub record BlueprintModule : Type 0 where
  pub name : String
  pub chart : ChartSpec
  pub arguments : ModuleArguments
  pub asset_ids : List String

pub record BlueprintSpec : Type 0 where
  pub cluster : String
  pub modules_namespace : String
  pub modules : Map BlueprintModule

pub record BlueprintStatus : Type 0 where
  pub observed_state : ObservedState
  pub observed_generation : ℕ
  pub modules_state : Map ObservedState
  pub releases : Map ℕ

pub record Blueprint : Type 0 where
  pub name : String
  pub namespace : String
  pub generation : ℕ
  pub deleted : Bool
  pub finalizers : List String
  pub labels : Map String
  pub annotations : Map String
  pub spec : BlueprintSpec
  pub status : BlueprintStatus

pub record MetaBlueprint : Type 0 where
  pub name : String
  pub namespace : String
  pub status : BlueprintStatus

unfoldable pub create_meta_blueprint : Blueprint → MetaBlueprint
create_meta_blueprint b = record { name = b.name; namespace = b.namespace; status = b.status }

unfoldable pub create_meta_blueprint_without_state : Blueprint → MetaBlueprint
create_meta_blueprint_without_state b = record {
  name = b.name;
  namespace = b.namespace;
  status = record {
    observed_state = no_state;
    observed_generation = 0;
    modules_state = [];
    releases = [];
  };
}
