-- ===== src/Assemble.antt =====
-- manager/controllers/app/fybrikapplication_controller.go: the reconciliation of an application up to
-- its plotter. Assemble.antt has the requirements of the assets, Assemble/Storage the buckets,
-- Assemble/Endpoints the addresses, Assemble/Solution the plotter, Assemble/Reconcile the whole.
pub mod Storage
pub mod Endpoints
pub mod Solution
pub mod Resource
pub mod Reconcile
pub mod Handle
pub mod Guarded
mod Tests
use mesh_for_data.Base.{
  String, ◌==◌, ◌<>◌, if◌then◌else◌, ltb, nat_eq, Option, none, some, List, [], ◌∷◌, Result, ok,
  err, and_then,
}
use mesh_for_data.Api.Taxonomy.{
  Action, Cluster, GetAssetResponse, ResourceMetadata, copy_flow, flow_name, read, read_flow,
}
use mesh_for_data.Api.Rules.{EvaluatorOutput}
use mesh_for_data.Api.Application.{DataContext, FybrikApplication}
use mesh_for_data.Policy.{PolicyEnvironment, credentials_path, lookup_policy_decisions}
use mesh_for_data.Config.{DataRequest, Engine, EvaluatorInput}
use mesh_for_data.Config.Policies.{evaluate}
use mesh_for_data.Planner.{DataInfo}
use mesh_for_data.Status.{States, analyze_error}

-- What the controller is given: the data catalog with the schema check of its answers, which gives
-- the violations or an error of its own, the policy manager, the engine of the configuration policies,
-- and the clusters.
pub record Services (W : Type 0) : Type 0 where
  pub get_asset_info : String → String → Result GetAssetResponse
  pub asset_check : GetAssetResponse → Result (List String)
  pub invalid_error : String → List String → String
  pub policy : PolicyEnvironment
  pub engine : Engine
  pub local_clusters : W → Result (List Cluster)
  pub clusters : W → Result (List Cluster)

abbrev pub no_cluster : Cluster
no_cluster = record {
  name = "";
  metadata = record { region = ""; zone = ""; vault_auth_path = "" };
}

-- The loop over the clusters.
unfoldable pub cluster_named : String → List Cluster → Option Cluster
cluster_named name [] = none
cluster_named name (c ∷ rest) =
    let later = cluster_named name rest in if c.name == name then some c else later

-- One cluster, or none and no error.
abbrev pub only_cluster : Result (List Cluster) → Result Cluster
only_cluster (err e) = err e
only_cluster (ok (c ∷ [])) = ok c
only_cluster (ok _) = ok no_cluster

abbrev pub or_unavailable : String → Option Cluster → Result Cluster
or_unavailable name none = err ("Cluster " <> name <> " is not available")
or_unavailable name (some c) = ok c

unfoldable pub named_cluster : String → Result (List Cluster) → Result Cluster
unfolding cluster_named
named_cluster name (err e) = err e
named_cluster name (ok clusters) = or_unavailable name (cluster_named name clusters)

-- The request asks for a read if the application has a workload.
unfoldable pub create_data_request :
    FybrikApplication → DataContext → ResourceMetadata → DataRequest
unfolding flow_name
create_data_request application d metadata = record {
  dataset_id = d.data_set_id;
  interface = d.requirements.interface;
  usage =
      (flow_name read_flow, ltb 0 application.spec.selector.workload_selector_size)
      ∷ (flow_name copy_flow, d.requirements.copy.required)
      ∷ [];
  metadata = metadata;
}

module _ {W : Type 0} (services : Services W) where
  unfoldable pub get_workload_cluster : FybrikApplication → W → Result Cluster
  unfolding named_cluster
  get_workload_cluster application w =
      let selector = application.spec.selector in
      if selector.cluster_name == ""
      then (if nat_eq selector.workload_selector_size 0
          then ok no_cluster
          else only_cluster (services.local_clusters w))
      else named_cluster selector.cluster_name (services.clusters w)

  -- `ValidateAssetResponse`
  unfoldable pub validate_asset_response : GetAssetResponse → String → Option String
  validate_asset_response response dataset_id = elim (services.asset_check response) [
    | err e ↦ some e
    | ok [] ↦ none
    | ok (v ∷ vs) ↦ some (services.invalid_error dataset_id (v ∷ vs))
  ]

  -- The governance actions, asked for only where the data is read.
  unfoldable pub read_actions : FybrikApplication → Cluster → String → List Action × Option String
  unfolding lookup_policy_decisions
  read_actions application workload dataset_id =
      let asked = lookup_policy_decisions services.policy dataset_id application (record {
        action_type = read;
        processing_location = workload.metadata.region;
        destination = workload.metadata.region;
      }) in
      if ltb 0 application.spec.selector.workload_selector_size then asked else ([], none)

  unfoldable pub evaluator_input :
      FybrikApplication → Cluster → DataContext → GetAssetResponse → List Action → EvaluatorInput
  unfolding create_data_request
  evaluator_input application workload d response actions = record {
    workload = record {
      uuid = application.uid;
      policy_set_id = "";
      cluster = workload;
      properties = application.spec.app_info;
    };
    request = create_data_request application d response.resource_metadata;
    governance_actions = actions;
  }

  abbrev pub data_info :
      DataContext
      → GetAssetResponse
      → Cluster
      → List Action
      → EvaluatorOutput × Option String
      → Result DataInfo
  data_info d response workload actions (output, some e) = err e
  data_info d response workload actions (output, none) = ok (record {
    data_details = response;
    context = d;
    configuration = output;
    workload_cluster = workload;
    actions = actions;
  })

  -- The steps behind the answer of the catalog.
  unfoldable pub decide_on :
      FybrikApplication → Cluster → DataContext → GetAssetResponse → Result DataInfo
  unfolding validate_asset_response read_actions evaluator_input evaluate
  decide_on application workload d response =
      let (actions, denial) = read_actions application workload d.data_set_id in
      elim (validate_asset_response response d.data_set_id) [
        | some e ↦ err e
        | none ↦ elim denial [
          | some e ↦ err e
          | none ↦
              data_info d response workload actions
                (evaluate services.engine (evaluator_input application workload d response actions))
        ]
      ]

  unfoldable pub construct_data_info : FybrikApplication → Cluster → DataContext → Result DataInfo
  unfolding credentials_path decide_on
  construct_data_info application workload d =
      elim (services.get_asset_info (credentials_path services.policy application) d.data_set_id) [
        | err e ↦ err e
        | ok response ↦ decide_on application workload d response
      ]

  abbrev pub add_item : DataInfo → Option (List DataInfo × States) → Option (List DataInfo × States)
  add_item item none = none
  add_item item (some (items, m)) = some (item ∷ items, m)

  -- The loop over the requested assets: the requirements, and the states with the errors.
  unfoldable pub gather_requirements :
      FybrikApplication → Cluster → List DataContext → States → Option (List DataInfo × States)
  unfolding construct_data_info analyze_error
  gather_requirements application workload [] m = some ([], m)
  gather_requirements application workload (d ∷ rest) m =
      elim (construct_data_info application workload d) [
        | err e ↦
            and_then (analyze_error m d.data_set_id (some e))
              (λ next. gather_requirements application workload rest next)
        | ok item ↦ add_item item (gather_requirements application workload rest m)
      ]
