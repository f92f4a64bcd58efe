-- ===== src/Api/Application.antt =====
-- manager/apis/app/v1alpha1/fybrikapplication_types.go, condition_types.go, metadata.go and
-- selector.go, with the metadata that the controllers read.
use mesh_for_data.Base.{String, Bool, false, Option, List, ℕ}
use mesh_for_data.Base.Maps.{Map}
use mesh_for_data.Api.Taxonomy.{InterfaceDetails, Properties, Connection}

-- The status of a Kubernetes condition; `unset` is the empty text.
pub data ConditionStatus : Type 0 where
  is_true is_false is_unknown unset : ConditionStatus

pub data ConditionType : Type 0 where
  error_condition deny_condition ready_condition valid_condition : ConditionType

pub record Condition : Type 0 where
  pub type : ConditionType
  pub status : ConditionStatus
  pub message : String
  pub observed_generation : ℕ

pub record ObservedState : Type 0 where
  pub ready : Bool
  pub error : String

-- The zero value of `ObservedState`.
abbrev pub no_state : ObservedState
no_state = record { ready = false; error = "" }

pub record CatalogRequirements : Type 0 where
  pub catalog_service : String
  pub catalog_id : String

pub record CopyRequirements : Type 0 where
  pub required : Bool
  pub catalog : CatalogRequirements

pub record DataRequirements : Type 0 where
  pub interface : InterfaceDetails
  pub copy : CopyRequirements

pub record DataContext : Type 0 where
  pub data_set_id : String
  pub catalog_service : String
  pub requirements : DataRequirements

-- `workload_selector_size` is what `WorkloadSelector.Size()` returns, the one thing that the
-- program asks of the label selector before it copies it.
pub record Selector : Type 0 where
  pub cluster_name : String
  pub workload_selector_size : ℕ

pub record FybrikApplicationSpec : Type 0 where
  pub selector : Selector
  pub secret_ref : String
  pub app_info : Properties
  pub requested : List DataContext

pub record ResourceReference : Type 0 where
  pub name : String
  pub namespace : String
  pub kind : String
  pub app_version : ℕ

pub record DatasetDetails : Type 0 where
  pub dataset_ref : String
  pub secret_ref : String

pub record AssetState : Type 0 where
  pub conditions : List Condition
  pub cataloged_asset : String
  pub endpoint : Connection

-- `none` is a nil map.
pub record FybrikApplicationStatus : Type 0 where
  pub ready : Bool
  pub error_message : String
  pub asset_states : Option (Map AssetState)
  pub observed_generation : ℕ
  pub validated_generation : ℕ
  pub valid_application : ConditionStatus
  pub generated : Option ResourceReference
  pub provisioned_storage : Option (Map DatasetDetails)

pub record FybrikApplication : Type 0 where
  pub name : String
  pub namespace : String
  pub uid : String
  pub generation : ℕ
  pub deleted : Bool
  pub finalizers : List String
  pub labels : Map String
  pub spec : FybrikApplicationSpec
  pub status : FybrikApplicationStatus
