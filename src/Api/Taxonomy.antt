-- ===== src/Api/Taxonomy.antt =====
-- pkg/model/taxonomy, pkg/model/datacatalog, pkg/model/policymanager, pkg/multicluster and the
-- data stores of manager/apis/app/v1alpha1.
use mesh_for_data.Base.{String, Option, List}
use mesh_for_data.Base.Json.{Fields, end}
use mesh_for_data.Base.Maps.{Map}

abbrev pub Capability : Type 0
Capability = String

abbrev pub ActionName : Type 0
ActionName = String

-- serde.Properties
abbrev pub Properties : Type 0
Properties = Fields

pub record Action : Type 0 where
  pub name : ActionName
  pub additional_properties : Properties

pub record Connection : Type 0 where
  pub name : String
  pub additional_properties : Properties

-- The zero value of `Connection`.
abbrev pub no_connection : Connection
no_connection = record { name = ""; additional_properties = end }

pub record InterfaceDetails : Type 0 where
  pub protocol : String
  pub data_format : String

pub record ResourceColumn : Type 0 where
  pub name : String
  pub tags : Option Properties

pub record ResourceMetadata : Type 0 where
  pub name : String
  pub owner : String
  pub geography : String
  pub tags : Option Properties
  pub columns : List ResourceColumn

pub record ResourceDetails : Type 0 where
  pub connection : Connection
  pub data_format : String

pub record GetAssetResponse : Type 0 where
  pub resource_metadata : ResourceMetadata
  pub details : ResourceDetails
  pub credentials : String

pub data RequestActionType : Type 0 where
  read write delete : RequestActionType

pub record RequestAction : Type 0 where
  pub action_type : RequestActionType
  pub processing_location : String
  pub destination : String

pub record ClusterMetadata : Type 0 where
  pub region : String
  pub zone : String
  pub vault_auth_path : String

pub record Cluster : Type 0 where
  pub name : String
  pub metadata : ClusterMetadata

pub record Vault : Type 0 where
  pub role : String
  pub secret_path : String
  pub address : String
  pub auth_path : String

pub record DataStore : Type 0 where
  pub vault : Map Vault
  pub connection : Connection
  pub format : String

pub data DataFlow : Type 0 where
  read_flow write_flow delete_flow copy_flow : DataFlow

-- `string(flowType)`
unfoldable pub flow_name : DataFlow → String
flow_name read_flow = "read"
flow_name write_flow = "write"
flow_name delete_flow = "delete"
flow_name copy_flow = "copy"
