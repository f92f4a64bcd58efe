-- ===== src/Lib.antt =====
-- Fybrik (mesh-for-data): the control plane that builds data planes for applications. An application
-- asks for data assets; the manager asks the data catalog and the policy manager about each asset,
-- evaluates the configuration policies, selects modules, clusters and storage (the planner), writes
-- the result as a plotter, and the plotter controller makes it into one blueprint for each cluster.
--
-- Parts and files:
-- - Api: the data of manager/apis/app/v1alpha1 and pkg/model. A struct is a record, a set of words a
--   data type, a pointer that may be nil an `Option`, a map a list of entries in the order in which
--   `range` visits them (Base/Maps), so that a theorem over all lists is one over all orders.
-- - Policy: manager/controllers/app/policy_compiler_interface.go, the question to the policy manager
--   (LookupPolicyDecisions is `lookup_policy_decisions`). Policy/Decisions has the proofs.
-- - Config: pkg/adminconfig/rego_file_evaluator.go (merge is `merge`, Evaluate is `evaluate` in
--   Config/Policies) with the copies of pkg/model/adminrules/model.go. Config/Narrow, Merge,
--   Evaluate, Loops, Decided and Copies have the proofs, from one map of restrictions up to the
--   whole evaluation.
-- - Planner: manager/controllers/app/select_modules.go. Planner.antt has the tests of a module,
--   Planner/Dependencies CheckDependencies, Planner/Paths the search (findPathsWithinLimit),
--   Planner/Choice the choice of clusters and storage (validate) and FindPaths. The files below them have the proofs.
-- - Blueprints: manager/controllers/app/blueprint_mgr.go, and in Blueprints/Steps the part of
--   plotter_controller.go that turns the steps of a plotter into module instances. Blueprints/Unify
--   has the proofs.
-- - Plotting: the reconciliation of a plotter in plotter_controller.go. Plotting.antt has the loop over
--   the clusters, Plotting/Reconcile the rest and the finalizers, Plotting/Handle
--   the fetch and the store; Plotting/Assets, Visits, Ready, Tidy, Finalizers and Uncreated have the proofs.
-- - Status: manager/controllers/app/fybrikapplication_conditions.go, and in Status/Readiness
--   checkReadiness of fybrikapplication_controller.go. Status/Settled and Initial have the proofs.
-- - Cleanup: reconcileFinalizers and deleteExternalResources of fybrikapplication_controller.go.
--   Cleanup/Emptied and Called have the proofs.
-- - Releases: SetMapField, reconcileFinalizers and deleteExternalResources of
--   manager/controllers/app/blueprint_controller.go. Releases/Nested and Leaks have the proofs.
-- - Deploy: the reconciliation of a blueprint in the same file (Reconcile is `handle_blueprint` of
--   Deploy/Handle, reconcile is `reconcile_blueprint` of Deploy/Reconcile), with the charts in Deploy.antt
--   and the status of releases in Deploy/Check. Deploy/Done, Noted, Cleaned and Applied have the proofs.
-- - Names: the names of releases and buckets in manager/controllers/utils/utils.go and
--   plotter_generator.go. Names/Bounds has the proofs.
-- - Generate: manager/controllers/app/plotter_generator.go with storage.go, the part of a plotter for
--   one asset (AddFlowInfoForAsset is `add_flow_info_for_asset` of Generate/Flow, GetCopyDestination
--   stands in Generate.antt, moduleAPIToService in Generate/Service). Generate/Realised, Declared and
--   Closed have the proofs.
-- - Assemble: the reconciliation of an application in
--   manager/controllers/app/fybrikapplication_controller.go (Reconcile is `handle_application` of
--   Assemble/Handle, reconcile is `reconcile_application` of Assemble/Reconcile), with the requirements
--   of the assets in Assemble.antt, the rest in Assemble/Storage, Endpoints and Solution, and
--   manager/controllers/app/resource_gen.go in Assemble/Resource. Assemble/Guarded has the proofs.
-- - Datasets: pkg/storage/storage_provisioning.go, the resources of buckets (CreateDataset is
--   `create_dataset`). Datasets/Again has the proofs.
-- - Local: pkg/multicluster/local/local_cluster_manager.go, which fills the interface of cluster managers
--   that Plotting takes (`local_manager`).
-- - Razee: pkg/multicluster/razee/razee_cluster_manager.go, the manager of clusters on a remote service
--   (`create_blueprint`, `update_blueprint`, `delete_blueprint`, `get_blueprint`, `get_clusters`).
--   Razee/Bounds has the proofs.
-- - Servers: the handlers of connectors/katalog/pkg/connector/connector.go (Servers/Katalog) and
--   connectors/opa/connector.go (Servers/Opa). Servers/Granted has the proofs.
-- - Taxonomy: the merge of documents in pkg/taxonomy/compile/merge.go, on the schemas of
--   pkg/taxonomy/model. Taxonomy/Pointwise has the proofs.
-- - Validation: manager/controllers/app/fybrikmodule_controller.go (Reconcile is `handle_module_object`).
-- - Connect: the conversions between OpenAPI and gRPC in
--   pkg/connectors/policymanager/clients/policymanager_grpc.go (Connect/Requests, Responses and Client)
--   and pkg/connectors/datacatalog/clients/datacatalog_grpc.go (Connect/Catalog), with the messages of
--   pkg/connectors/protos. Connect/Trips and Crashes have the proofs.
-- - Base: names, lists, maps, results, JSON values and texts that the other parts share. Each part's
--   Tests file has theorems at concrete inputs.
--
-- The planner gets its actions from Policy and its decisions from Config, as fields of `DataInfo`;
-- `add_flow_info_for_asset` of Generate makes the first solution of `find_paths` into a flow, and
-- `reconcile_application` of Assemble puts the flows of all assets into one plotter;
-- a plotter's steps reach Plotting through `get_blueprints_map`.
--
-- State and errors: code that changes an object is a function that returns the changed object; calls
-- of the cluster manager pass on a state of all clusters, of any type. An error is its message,
-- beside a value that Go leaves or in `Result`. A nil pointer that the code would follow is `none`.
--
-- Bounds and fuel: the search for paths recurses on the number of edges that are left, as the code
-- does; CheckDependencies recurses on a depth, and Planner/Dependencies shows which depth is enough; every
-- other loop recurses on the list that it visits. Sizes and generations
-- are natural numbers; the program never comes near the bound of int64 with them. The versions of a
-- channel, which are read from texts, wrap at 64 bits (`next_version`).
--
-- Parameters: the policy manager, OPA, the JSON schema check, the YAML codec, Kubernetes, the cluster
-- manager, Helm, kstatus, label selectors, the gRPC services, text templates, reflect.DeepEqual, the
-- clock, SHA-512 and the storage accounts. Hypotheses on them stand in
-- the theorems that need them.
--
-- Not modelled: logging, generated code and deep copies, the OpenAPI clients and the start of the
-- servers of the connectors, the log-in to Razee, Helm, the commands, the transformations
-- and the validation of taxonomies, and the set-up of the controllers.
pub mod Base
pub mod Api
pub mod Policy
pub mod Planner
pub mod Config
pub mod Blueprints
pub mod Plotting
pub mod Status
pub mod Cleanup
pub mod Releases
pub mod Names
pub mod Deploy
pub mod Connect
pub mod Generate
pub mod Assemble
pub mod Datasets
pub mod Validation
pub mod Local
pub mod Razee
pub mod Servers
pub mod Taxonomy
