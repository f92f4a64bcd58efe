-- ===== src/Api/Plotter.antt =====
-- manager/apis/app/v1alpha1/plotter_types.go
use mesh_for_data.Base.{String, Bool, Option, List, ℕ}
use mesh_for_data.Base.Maps.{Map}
use mesh_for_data.Api.Taxonomy.{Action, DataFlow, DataStore, ResourceDetails}
use mesh_for_data.Api.Module.{CapabilityScope, ChartSpec}
use mesh_for_data.Api.Application.{ObservedState, Selector}
use mesh_for_data.Api.Blueprint.{MetaBlueprint}

pub record AssetDetails : Type 0 where
  pub advertised_asset_id : String
  pub data_store : DataStore

pub record StepSource : Type 0 where
  pub asset_id : String
  pub api : Option ResourceDetails

pub record StepSink : Type 0 where
  pub asset_id : String

pub record StepParameters : Type 0 where
  pub source : Option StepSource
  pub sink : Option StepSink
  pub api : Option ResourceDetails
  pub actions : List Action

pub record DataFlowStep : Type 0 where
  pub name : String
  pub cluster : String
  pub template : String
  pub parameters : Option StepParameters

pub data SubFlowTrigger : Type 0 where
  init_trigger workload_trigger timer_trigger : SubFlowTrigger

pub record SubFlow : Type 0 where
  pub name : String
  pub flow_type : DataFlow
  pub triggers : List SubFlowTrigger
  pub steps : List (List DataFlowStep)

pub record Flow : Type 0 where
  pub name : String
  pub flow_type : DataFlow
  pub asset_id : String
  pub sub_flows : List SubFlow

pub record ModuleInfo : Type 0 where
  pub name : String
  pub type : String
  pub chart : ChartSpec
  pub scope : CapabilityScope

pub record Template : Type 0 where
  pub name : String
  pub modules : List ModuleInfo

pub record PlotterSpec : Type 0 where
  pub selector : Selector
  pub assets : Map AssetDetails
  pub flows : List Flow
  pub modules_namespace : String
  pub templates : Map Template

-- The fields of the status that the controllers read or write. `ready_timestamp` is a time in
-- seconds.
pub record PlotterStatus : Type 0 where
  pub observed_state : ObservedState
  pub observed_generation : ℕ
  pub assets : Map ObservedState
  pub blueprints : Map MetaBlueprint
  pub ready_timestamp : Option ℕ

pub record Plotter : Type 0 where
  pub name : String
  pub namespace : String
  pub generation : ℕ
  pub deleted : Bool
  pub finalizers : List String
  pub labels : Map String
  pub annotations : Map String
  pub spec : PlotterSpec
  pub status : PlotterStatus
