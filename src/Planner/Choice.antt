-- ===== src/Planner/Choice.antt =====
-- `FindPaths`, `validSolutions`, `validate`, `findCluster` and the cluster restrictions of
-- manager/controllers/app/select_modules.go: which data paths can be deployed, and how. A function
-- that fills in an element of the path through a pointer returns the element; where `validate`
-- returns false, and the path is dropped, the result is `none`.
pub mod Placement
pub mod Resolve
pub mod Found
pub mod Regions
use mesh_for_data.Base.{
  ℕ, String, ltb, ◌==◌, if◌then◌else◌, Bool, true, false, not, ◌&&◌, ◌||◌, is_empty, Option, none,
  some, List, [], ◌∷◌, ◌++◌,
}
use mesh_for_data.Base.Json.{Fields, text, object, end, field}
use mesh_for_data.Base.Maps.{lookup}
use mesh_for_data.Base.Text.{split_dots}
use mesh_for_data.Api.Taxonomy.{Action, Capability, Cluster, RequestAction, write}
use mesh_for_data.Api.Application.{FybrikApplication}
use mesh_for_data.Api.Rules.{Decision, DecisionPerCapabilityMap, Restriction, status_true}
use mesh_for_data.Policy.{lookup_policy_decisions, write_not_allowed}
use mesh_for_data.Planner.{
  DataInfo, Edge, Node, PlotterGenerator, ResolvedEdge, Solution, capability_of,
  supports_governance_action, supports_governance_actions,
}
use mesh_for_data.Planner.Paths.{find_paths_within_limit}

-- The capability that stands for the actions of a read or copy capability.
abbrev pub transform : Capability
transform = "transform"

unfoldable pub has_string : String → List String → Bool
has_string value [] = false
has_string value (v ∷ values) = v == value || has_string value values

-- A text field with the JSON tag `omitempty`.
unfoldable pub omit_empty : String → String → Fields → Fields
omit_empty name value rest = if value == "" then rest else field name (text value) rest

-- `utils.StructToMap(&cluster)`, by the JSON tags of `Cluster`; it has no error on this type.
unfoldable pub cluster_details : Cluster → Fields
unfolding omit_empty
cluster_details c = field "name" (text c.name) (
    field "metadata"
      (object (
        field "region" (text c.metadata.region) (
          omit_empty "zone" c.metadata.zone
            (omit_empty "vaultAuthPath" c.metadata.vault_auth_path end))))
      end)

-- The cluster restrictions of a decision. No decision, and a nil map, have none.
unfoldable pub cluster_restrictions : Option Decision → Restriction
cluster_restrictions none = []
cluster_restrictions (some d) = elim d.deployment_restrictions.clusters [ none ↦ [] | some r ↦ r ]

unfoldable pub write_operation : String → RequestAction
write_operation region = record {
  action_type = write;
  processing_location = region;
  destination = region;
}

-- The condition `err != nil && err.Error() == app.WriteNotAllowed`.
unfoldable pub write_denied : Option String → Bool
write_denied none = false
write_denied (some e) = e == write_not_allowed

-- Go panics on a nil sink, which no data path has.
unfoldable pub is_virtual : Option Node → Bool
is_virtual none = true
is_virtual (some sink) = sink.virtual

-- The loop over the required actions: the actions of the element, and those left for the next.
unfoldable pub assign_actions :
    Edge → List Action → List Action → List Action → List Action × List Action
unfolding supports_governance_action
assign_actions edge [] assigned unsupported = (assigned, unsupported)
assign_actions edge (action ∷ rest) assigned unsupported =
    let supported = supports_governance_action edge action in
    assign_actions edge rest (if supported then assigned ++ action ∷ [] else assigned)
      (if supported then unsupported else unsupported ++ action ∷ [])

-- `supportedCapabilities[capability]`
unfoldable pub capability_on_path : Capability → List ResolvedEdge → Bool
unfolding capability_of
capability_on_path capability [] = false
capability_on_path capability (element ∷ rest) =
    (capability_of element.edge).capability == capability || capability_on_path capability rest

unfoldable pub must_deploy : Decision → Bool
must_deploy d = elim d.deploy [ status_true ↦ true | _ ↦ false ]

unfoldable pub required_on_path : List ResolvedEdge → DecisionPerCapabilityMap → Bool
unfolding must_deploy capability_on_path
required_on_path path [] = true
required_on_path path ((capability, decision) ∷ rest) =
    if must_deploy decision && not (capability_on_path capability path)
    then false
    else required_on_path path rest

unfoldable pub source_node : DataInfo → Node
source_node item = record {
  connection = some (record {
    protocol = item.data_details.details.connection.name;
    data_format = item.data_details.details.data_format;
  });
  virtual = false;
}

unfoldable pub destination_node : DataInfo → FybrikApplication → Node
destination_node item application = record {
  connection = some item.context.requirements.interface;
  virtual = ltb 0 application.spec.selector.workload_selector_size;
}

module _ (p : PlotterGenerator) where
  -- One round of the loop over the restrictions.
  unfoldable pub meets : Cluster → String → List String → Bool
  unfolding has_string cluster_details split_dots
  meets cluster key values = elim (p.nested_string (cluster_details cluster) (split_dots key)) [
    | none ↦ false
    | some value ↦ has_string value values
  ]

  unfoldable pub meets_all : Cluster → Restriction → Bool
  unfolding meets
  meets_all cluster [] = true
  meets_all cluster ((key, values) ∷ rest) = meets cluster key values && meets_all cluster rest

  unfoldable pub validate_cluster_restrictions_per_capability :
      DataInfo → Capability → Cluster → Bool
  unfolding lookup cluster_restrictions meets_all
  validate_cluster_restrictions_per_capability item capability cluster =
      meets_all cluster
        (cluster_restrictions (lookup capability item.configuration.config_decisions))

  unfoldable pub validate_cluster_restrictions : DataInfo → ResolvedEdge → Cluster → Bool
  unfolding capability_of validate_cluster_restrictions_per_capability
  validate_cluster_restrictions item element cluster =
      if not (
        validate_cluster_restrictions_per_capability item (capability_of element.edge).capability
          cluster)
      then false
      else if is_empty element.actions
      then true
      else validate_cluster_restrictions_per_capability item transform cluster

  -- The loop of `findCluster` over the clusters.
  unfoldable pub find_cluster : DataInfo → ResolvedEdge → List Cluster → Option ResolvedEdge
  unfolding validate_cluster_restrictions
  find_cluster item element [] = none
  find_cluster item element (cluster ∷ rest) =
      if validate_cluster_restrictions item element cluster
      then some (record element { cluster = cluster.name })
      else find_cluster item element rest

  -- The body of the loop over the regions of the storage accounts.
  unfoldable pub try_region : DataInfo → FybrikApplication → ResolvedEdge → String → ResolvedEdge
  unfolding lookup_policy_decisions write_operation write_denied supports_governance_actions
  try_region item application element region =
      let (actions, e) =
        lookup_policy_decisions p.policy_manager item.context.data_set_id application
          (write_operation region) in
      if write_denied e
      then element
      else if not (supports_governance_actions element.edge actions)
      then element
      else record element { actions = actions; storage_account_region = region }

  unfoldable pub choose_region :
      DataInfo → FybrikApplication → ResolvedEdge → List String → ResolvedEdge
  unfolding try_region
  choose_region item application element [] = element
  choose_region item application element (region ∷ rest) =
      choose_region item application (try_region item application element region) rest

  -- The storage of an element whose sink is no virtual endpoint.
  unfoldable pub add_storage : DataInfo → FybrikApplication → ResolvedEdge → Option ResolvedEdge
  unfolding is_virtual choose_region
  add_storage item application element =
      let chosen = choose_region item application element p.storage_account_regions in
      if is_virtual element.sink
      then some element
      else if chosen.storage_account_region == ""
      then none
      else some chosen

  -- One round of the loop of `validate` over the elements of the path.
  unfoldable pub resolve :
      DataInfo
      → FybrikApplication
      → List Action
      → ResolvedEdge
      → Option (ResolvedEdge × List Action)
  unfolding add_storage assign_actions find_cluster
  resolve item application required element =
      elim (add_storage item application (record element { actions = [] })) [
        | none ↦ none
        | some stored ↦
            let (assigned, unsupported) = assign_actions stored.edge required stored.actions [] in
            elim (find_cluster item (record stored { actions = assigned }) p.clusters) [
              | none ↦ none
              | some placed ↦ some (placed, unsupported)
            ]
      ]

  unfoldable pub resolve_path :
      DataInfo
      → FybrikApplication
      → List Action
      → List ResolvedEdge
      → Option (List ResolvedEdge × List Action)
  unfolding resolve
  resolve_path item application required [] = some ([], required)
  resolve_path item application required (element ∷ rest) =
      elim (resolve item application required element) [
        | none ↦ none
        | some (placed, unsupported) ↦ elim (resolve_path item application unsupported rest) [
          | none ↦ none
          | some (path, left) ↦ some (placed ∷ path, left)
        ]
      ]

  unfoldable pub validate : DataInfo → Solution → FybrikApplication → Option Solution
  unfolding resolve_path required_on_path
  validate item solution application =
      elim (resolve_path item application item.actions solution.data_path) [
        | none ↦ none
        | some (path, left) ↦
            if not (is_empty left)
            then none
            else if required_on_path path item.configuration.config_decisions
            then some (record { data_path = path })
            else none
      ]

  unfoldable pub valid_solutions : DataInfo → List Solution → FybrikApplication → List Solution
  unfolding validate
  valid_solutions item [] application = []
  valid_solutions item (solution ∷ rest) application =
      let others = valid_solutions item rest application in
      elim (validate item solution application) [ none ↦ others | some s ↦ s ∷ others ]

  -- `bound` is what `utils.GetDataPathMaxSize` reads from the environment.
  unfoldable pub find_paths : ℕ → DataInfo → FybrikApplication → List Solution
  unfolding source_node destination_node find_paths_within_limit valid_solutions
  find_paths bound item application =
      valid_solutions item
        (find_paths_within_limit p item (source_node item) bound
          (destination_node item application))
        application
