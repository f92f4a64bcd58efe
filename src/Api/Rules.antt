-- ===== src/Api/Rules.antt =====
-- pkg/model/adminrules/model.go and pkg/adminconfig/evaluator_output.go
use mesh_for_data.Base.{String, Bool, Option, List}
use mesh_for_data.Base.Maps.{Map}

-- `status_empty` is the text of a field that was left out.
pub data DeploymentStatus : Type 0 where
  status_true status_false status_unknown status_empty : DeploymentStatus

-- A property to the values that it may have.
abbrev pub Restriction : Type 0
Restriction = Map (List String)

pub record DecisionPolicy : Type 0 where
  pub id : String
  pub policy_set_id : String
  pub description : String
  pub version : String

-- `none` is a nil map.
pub record Restrictions : Type 0 where
  pub clusters : Option Restriction
  pub modules : Option Restriction
  pub storage_accounts : Option Restriction

pub record Decision : Type 0 where
  pub deploy : DeploymentStatus
  pub deployment_restrictions : Restrictions
  pub policy : DecisionPolicy

pub record DecisionPerCapability : Type 0 where
  pub capability : String
  pub decision : Decision

abbrev pub DecisionPerCapabilityMap : Type 0
DecisionPerCapabilityMap = Map Decision

pub record EvaluatorOutput : Type 0 where
  pub valid : Bool
  pub dataset_id : String
  pub uuid : String
  pub policy_set_id : String
  pub config_decisions : DecisionPerCapabilityMap
  pub policies : List DecisionPolicy
