-- ===== src/Plotting.antt =====
-- manager/controllers/app/plotter_controller.go: `reconcile`, which brings the blueprints of a
-- plotter about on the clusters and collects their states. The cluster manager, reflect.DeepEqual
-- and the clock are parameters.
pub mod Reconcile
pub mod Handle
pub mod Assets
pub mod Visits
pub mod Ready
pub mod Tidy
pub mod Uncreated
pub mod Finalizers
mod Tests
use mesh_for_data.Base.{
  String, ◌==◌, ◌<>◌, if◌then◌else◌, Bool, false, not, ◌&&◌, nat_eq, ◌+◌, ◌-◌, Option, none, some,
  List, [], ◌∷◌, ◌++◌, Result, ok, err,
}
use mesh_for_data.Base.Maps.{Map, insert, lookup, get_or_zero, or_zero}
use mesh_for_data.Api.Taxonomy.{Cluster}
use mesh_for_data.Api.Application.{ObservedState, no_state}
use mesh_for_data.Api.Blueprint.{
  Blueprint, BlueprintModule, BlueprintSpec, MetaBlueprint, create_meta_blueprint,
  create_meta_blueprint_without_state,
}
use mesh_for_data.Api.Plotter.{Plotter}

-- The operations of multicluster.ClusterManager on the state `W` of all clusters. `none` is a nil
-- blueprint and a nil error. No operation changes the blueprint that it is given.
pub record ClusterManager (W : Type 0) : Type 0 where
  pub get_clusters : W → Result (List Cluster)
  pub get_blueprint : W → String → String → String → Result (Option Blueprint)
  pub create_blueprint : W → String → Blueprint → W × Option String
  pub update_blueprint : W → String → Blueprint → W × Option String
  pub delete_blueprint : W → String → String → String → W × Option String

-- The state of the asset after the state of one module that handles it.
abbrev pub asset_state : ObservedState → Option ObservedState → ObservedState
asset_state state none = state
asset_state state (some old) =
    if not state.ready
    then record { ready = false; error = old.error <> "\n" <> state.error }
    else old

-- The inner loop of `updatePlotterAssetsState`, over the assets of one module.
unfoldable pub update_assets : ObservedState → List String → Map ObservedState → Map ObservedState
unfolding insert lookup
update_assets state [] m = m
update_assets state (id ∷ rest) m =
    update_assets state rest (insert id (asset_state state (lookup id m)) m)

-- The assets of a module instance; a missing instance has none.
unfoldable pub assets_of : String → Map BlueprintModule → List String
unfolding lookup
assets_of instance_name modules = elim (lookup instance_name modules) [
  | none ↦ []
  | some m ↦ m.asset_ids
]

-- The outer loop of `updatePlotterAssetsState`, over the states of the modules.
unfoldable pub update_states :
    Map BlueprintModule → Map ObservedState → Map ObservedState → Map ObservedState
unfolding update_assets assets_of
update_states modules [] m = m
update_states modules ((name, state) ∷ rest) m =
    update_states modules rest (update_assets state (assets_of name modules) m)

unfoldable pub update_plotter_assets_state : Map ObservedState → Blueprint → Map ObservedState
unfolding update_states
update_plotter_assets_state m b = update_states b.spec.modules b.status.modules_state m

-- The inner loop of `setPlotterAssetsReadyStateToFalse`.
unfoldable pub set_not_ready : String → List String → Map ObservedState → Map ObservedState
unfolding insert
set_not_ready message [] m = m
set_not_ready message (id ∷ rest) m =
    set_not_ready message rest (insert id (record { ready = false; error = message }) m)

-- The outer loop of `setPlotterAssetsReadyStateToFalse`.
unfoldable pub set_modules_not_ready :
    String → Map BlueprintModule → Map ObservedState → Map ObservedState
unfolding set_not_ready
set_modules_not_ready message [] m = m
set_modules_not_ready message ((name, b) ∷ rest) m =
    set_modules_not_ready message rest (set_not_ready message b.asset_ids m)

-- The variables of the loop over the clusters: the blueprints and the error of the plotter's status,
-- the states of the assets, whether the plotter is ready, and the errors.
pub record Progress : Type 0 where
  pub blueprints : Map MetaBlueprint
  pub error : String
  pub assets : Map ObservedState
  pub is_ready : Bool
  pub errors : List String

-- The plotter is not ready and neither are the assets of the blueprint.
abbrev pub not_ready : BlueprintSpec → String → Progress → Progress
not_ready spec message p = record p {
  is_ready = false;
  assets = set_modules_not_ready message spec.modules p.assets;
}

-- The error of a call is added to the errors.
abbrev pub add_error : String → Progress → Progress
add_error e p = record p { errors = p.errors ++ e ∷ [] }

abbrev pub or_error : String → String → String
or_error e old = if e == "" then old else e

-- The remote blueprint has the wanted spec: its state is taken over.
unfoldable pub take_over : String → Blueprint → Progress → Progress
unfolding insert update_plotter_assets_state create_meta_blueprint
take_over cluster b p = record p {
  blueprints = insert cluster (create_meta_blueprint b) p.blueprints;
  is_ready = p.is_ready && b.status.observed_state.ready;
  error = or_error b.status.observed_state.error p.error;
  assets = update_plotter_assets_state p.assets b;
}

-- The new blueprint for a cluster. Its namespace and name are the plotter's.
unfoldable pub new_blueprint : Plotter → BlueprintSpec → Blueprint
unfolding lookup
new_blueprint plotter spec = record {
  name = plotter.name;
  namespace = plotter.namespace;
  generation = 0;
  deleted = false;
  finalizers = [];
  labels =
      ("razee/watch-resource", "debug")
      ∷ ("app.fybrik.io/app-name", get_or_zero "" "app.fybrik.io/app-name" plotter.labels)
      ∷ ("app.fybrik.io/app-namespace", get_or_zero "" "app.fybrik.io/app-namespace" plotter.labels)
      ∷ [];
  annotations =
      (
        "app.fybrik.io/app-uuid",
        or_zero "UUID missing" (lookup "app.fybrik.io/app-uuid" plotter.annotations),
      )
      ∷ [];
  spec = spec;
  status = record {
    observed_state = no_state;
    observed_generation = 0;
    modules_state = [];
    releases = [];
  };
}

-- How a round of the loop over the clusters ends: on to the next cluster, or out of `reconcile`.
pub data Round : Type 0 where
  next leave : Round

module _ {W : Type 0} (manager : ClusterManager W)
    (same_spec : BlueprintSpec → BlueprintSpec → Bool) (plotter : Plotter) where
  -- A cluster with no blueprint yet. Where the creation fails, the plotter stays as ready as it is.
  unfoldable pub create : String → BlueprintSpec → W → Progress → W × Progress
  unfolding new_blueprint set_modules_not_ready insert create_meta_blueprint_without_state
  create cluster spec w p =
      let b = new_blueprint plotter spec in
      let (after, failure) = manager.create_blueprint w cluster b in
      (
        after,
        elim failure [
          | some e ↦ record p {
            errors = p.errors ++ e ∷ [];
            assets = set_modules_not_ready e spec.modules p.assets;
          }
          | none ↦ not_ready spec "Blueprint just created" (record p {
            blueprints = insert cluster (create_meta_blueprint_without_state b) p.blueprints;
          })
        ],
      )

  -- A blueprint with another spec than the wanted one, after a change of the plotter.
  unfoldable pub update : String → BlueprintSpec → Blueprint → W → Progress → W × Progress
  unfolding set_modules_not_ready insert create_meta_blueprint_without_state
  update cluster spec remote w p =
      let b = record remote { spec = spec; annotations = [] } in
      let (after, failure) = manager.update_blueprint w cluster b in
      (
        after,
        elim failure [
          | some e ↦ not_ready spec e (add_error e p)
          | none ↦ not_ready spec "Blueprint changes just applied" (record p {
            blueprints = insert cluster (create_meta_blueprint_without_state b) p.blueprints;
          })
        ],
      )

  -- The generation of the plotter is not the one that was reconciled last.
  abbrev pub changed : Bool
  changed = not (nat_eq plotter.generation plotter.status.observed_generation)

  -- A blueprint that was found on its cluster.
  unfoldable pub visit_remote : String → BlueprintSpec → Blueprint → W → Progress → W × Progress
  unfolding update take_over update_plotter_assets_state
  visit_remote cluster spec remote w p =
      if same_spec spec remote.spec
      then (w, take_over cluster remote p)
      else if changed
      then update cluster spec remote w p
      else (w, record p { is_ready = false; assets = update_plotter_assets_state p.assets remote })

  -- What the cluster manager answered for the blueprint of the cluster.
  unfoldable pub visit_answer :
      String → BlueprintSpec → Result (Option Blueprint) → W → Progress → W × Progress × Round
  unfolding visit_remote set_modules_not_ready
  visit_answer cluster spec (err e) w p = (w, add_error e p, leave)
  visit_answer cluster spec (ok none) w p =
      (w, not_ready spec "Could not yet find remote blueprint" p, next)
  visit_answer cluster spec (ok (some remote)) w p =
      let (after, q) = visit_remote cluster spec remote w p in (after, q, next)

  -- One round of the loop over the clusters.
  unfoldable pub visit :
      String → BlueprintSpec → Option MetaBlueprint → W → Progress → W × Progress × Round
  unfolding create visit_answer
  visit cluster spec none w p = let (after, q) = create cluster spec w p in (after, q, next)
  visit cluster spec (some b) w p =
      visit_answer cluster spec (manager.get_blueprint w cluster b.namespace b.name) w p

  unfoldable pub visit_all : Map BlueprintSpec → W → Progress → W × Progress × Round
  unfolding visit lookup
  visit_all [] w p = (w, p, next)
  visit_all ((cluster, spec) ∷ rest) w p =
      let (after, q, round) = visit cluster spec (lookup cluster p.blueprints) w p in
      let more = visit_all rest after q in elim round [ leave ↦ (after, q, leave) | next ↦ more ]
