-- ===== src/Api/Module.antt =====
-- manager/apis/app/v1alpha1/fybrikmodule_types.go
use mesh_for_data.Base.{String, Option, List}
use mesh_for_data.Base.Maps.{Map}
use mesh_for_data.Api.Taxonomy.{Capability, ActionName, InterfaceDetails, ResourceDetails}

pub record ModuleInOut : Type 0 where
  pub source : Option InterfaceDetails
  pub sink : Option InterfaceDetails

pub data DependencyType : Type 0 where
  module_type connector feature : DependencyType

pub record Dependency : Type 0 where
  pub type : DependencyType
  pub name : String

pub record Plugin : Type 0 where
  pub plugin_type : String
  pub data_format : String

pub record ModuleSupportedAction : Type 0 where
  pub name : ActionName

pub data CapabilityScope : Type 0 where
  asset workload cluster : CapabilityScope

pub record ModuleCapability : Type 0 where
  pub capability : Capability
  pub scope : CapabilityScope
  pub supported_interfaces : List ModuleInOut
  pub api : Option ResourceDetails
  pub actions : List ModuleSupportedAction
  pub plugins : List Plugin

pub record ResourceStatusIndicator : Type 0 where
  pub kind : String
  pub success_condition : String
  pub failure_condition : String
  pub error_message : String

pub record ChartSpec : Type 0 where
  pub name : String
  pub chart_pull_secret : String
  pub values : Map String

pub record FybrikModuleSpec : Type 0 where
  pub description : String
  pub type : String
  pub plugin_type : String
  pub dependencies : List Dependency
  pub capabilities : List ModuleCapability
  pub chart : ChartSpec
  pub status_indicators : List ResourceStatusIndicator

-- A module with the part of its metadata that the program reads.
pub record FybrikModule : Type 0 where
  pub name : String
  pub spec : FybrikModuleSpec
