-- ===== src/Plotting/Tests.antt =====
-- The theorems of Plotting at a plotter with one blueprint, on a cluster manager that keeps one
-- blueprint for each cluster.
use mesh_for_data.Base.{
  String, ℕ, ◌==◌, ◌≡◌, refl, Bool, true, false, ◌&&◌, ◌⊎◌, Option, none, some, [], ◌∷◌, All,
  Result, ok,
}
use mesh_for_data.Base.Maps.{Map, delete, has, insert, lookup}
use mesh_for_data.Api.Application.{no_state}
use mesh_for_data.Api.Blueprint.{Blueprint, BlueprintModule, BlueprintSpec, create_meta_blueprint}
use mesh_for_data.Api.Plotter.{Plotter}
use mesh_for_data.Plotting.{
  ClusterManager, assets_of, next, take_over, update_assets, update_plotter_assets_state,
  update_states, visit, visit_all, visit_answer, visit_remote,
}
use mesh_for_data.Plotting.Assets.{states_ready, allows, allows-update_plotter_assets_state}
use mesh_for_data.Plotting.Ready.{
  reconcile_wanted-tidy, reconcile_wanted_assets, reconcile_wanted_ready, reconciled, run,
}
use mesh_for_data.Plotting.Reconcile.{
  complete, delete_all, reconcile_finalizers, finish, is_gone, reconcile_wanted, tidy,
}
use mesh_for_data.Plotting.Uncreated.{reconcile_wanted_uncreated}
use mesh_for_data.Planner.Choice.{has_string}
use mesh_for_data.Base.{keep}
use mesh_for_data.Plotting.Finalizers.{IsDeleted, reconcile_finalizers-IsDeleted}
use mesh_for_data.Plotting.Visits.{AssetFact, ReadyFact}

abbrev reader : BlueprintModule
reader = record {
  name = "reader";
  chart = record { name = "reader-chart"; chart_pull_secret = ""; values = [] };
  arguments = record {
    labels = [];
    app_selector = record { cluster_name = ""; workload_selector_size = 0 };
    copy = none;
    read = [];
    write = [];
  };
  asset_ids = "asset-1" ∷ [];
}

abbrev north : BlueprintSpec
north = record {
  cluster = "north";
  modules_namespace = "modules";
  modules = ("reader", reader) ∷ [];
}

abbrev wanted : Map BlueprintSpec
wanted = ("north", north) ∷ []

abbrev deployed : Blueprint
deployed = record {
  name = "plotter";
  namespace = "system";
  generation = 1;
  deleted = false;
  finalizers = [];
  labels = [];
  annotations = [];
  spec = north;
  status = record {
    observed_state = record { ready = true; error = "" };
    observed_generation = 1;
    modules_state = ("reader", record { ready = true; error = "" }) ∷ [];
    releases = [];
  };
}

-- The plotter has blueprints on two clusters, one of which is not wanted any more.
abbrev plotter : Plotter
plotter = record {
  name = "plotter";
  namespace = "system";
  generation = 1;
  deleted = false;
  finalizers = [];
  labels = [];
  annotations = [];
  spec = record {
    selector = record { cluster_name = ""; workload_selector_size = 0 };
    assets = [];
    flows = [];
    modules_namespace = "modules";
    templates = [];
  };
  status = record {
    observed_state = no_state;
    observed_generation = 1;
    assets = [];
    blueprints =
        ("north", create_meta_blueprint deployed) ∷ ("south", create_meta_blueprint deployed) ∷ [];
    ready_timestamp = none;
  };
}

abbrev Clusters : Type 0
Clusters = Map Blueprint

abbrev clusters : Clusters
clusters = ("north", deployed) ∷ ("south", deployed) ∷ []

-- Names of clusters are enough to tell the specs of the samples apart.
abbrev same_spec : BlueprintSpec → BlueprintSpec → Bool
same_spec a b = a.cluster == b.cluster

unfoldable found : Clusters → String → Result (Option Blueprint)
unfolding lookup
found w cluster = ok (lookup cluster w)

unfoldable stored : Clusters → String → Blueprint → Clusters × Option String
unfolding insert
stored w cluster b = (insert cluster b w, none)

unfoldable removed : Clusters → String → Clusters × Option String
unfolding delete
removed w cluster = (delete cluster w, none)

abbrev manager : ClusterManager Clusters
manager = record {
  get_clusters = λ w. ok [];
  get_blueprint = λ w cluster namespace name. found w cluster;
  create_blueprint = λ w cluster b. stored w cluster b;
  update_blueprint = λ w cluster b. stored w cluster b;
  delete_blueprint = λ w cluster namespace name. removed w cluster;
}

abbrev backoff : ℕ → ℕ
backoff seconds = 1

run_ends : (run manager same_spec 100 backoff plotter wanted clusters).2 ≡ next
unfolding visit_all visit visit_answer visit_remote take_over update_plotter_assets_state
    update_states update_assets assets_of found lookup
run_ends = refl

run_ready :
    (reconciled manager same_spec 100 backoff plotter wanted clusters).status.observed_state.ready
    ≡ true
unfolding reconcile_wanted complete finish tidy is_gone visit_all visit visit_answer visit_remote
    take_over update_plotter_assets_state update_states update_assets assets_of found removed lookup
run_ready = refl

run_asset :
    lookup "asset-1"
      (reconciled manager same_spec 100 backoff plotter wanted clusters).status.assets
    ≡ some (record { ready = true; error = "" })
unfolding reconcile_wanted complete finish tidy is_gone visit_all visit visit_answer visit_remote
    take_over update_plotter_assets_state update_states update_assets assets_of found removed lookup
run_asset = refl

run_errors : (reconciled manager same_spec 100 backoff plotter wanted clusters).errors ≡ []
unfolding reconcile_wanted complete finish tidy is_gone visit_all visit visit_answer visit_remote
    take_over update_plotter_assets_state update_states update_assets assets_of found removed lookup
run_errors = refl

reconcile_wanted_ready_example :
    All (λ (e : String × BlueprintSpec). ReadyFact manager same_spec plotter e.0 e.1) wanted
reconcile_wanted_ready_example =
    reconcile_wanted_ready manager same_spec 100 backoff plotter wanted clusters run_ends run_ready

reconcile_wanted_assets_example :
    All
      (λ (e : String × BlueprintSpec). AssetFact manager same_spec plotter "asset-1" e.0 e.1)
      wanted
reconcile_wanted_assets_example =
    reconcile_wanted_assets manager same_spec 100 backoff plotter wanted clusters "asset-1"
      (record { ready = true; error = "" }) run_ends run_asset refl

reconcile_wanted-tidy_example :
    (has "south" wanted ≡ true)
    ⊎ (lookup "south"
          (reconciled manager same_spec 100 backoff plotter wanted clusters).status.blueprints
        ≡ none)
reconcile_wanted-tidy_example =
    reconcile_wanted-tidy manager same_spec 100 backoff plotter wanted clusters "south" run_ends
      run_errors

-- A manager that creates nothing.
abbrev full : ClusterManager Clusters
full = record manager { create_blueprint = λ w cluster b. (w, some "no room") }

abbrev new_plotter : Plotter
new_plotter = record plotter { status = record plotter.status { blueprints = [] } }

reconcile_wanted_uncreated_example :
    (reconcile_wanted full same_spec 100 backoff new_plotter wanted
      []).1.status.observed_state.ready
    ≡ true
reconcile_wanted_uncreated_example =
    reconcile_wanted_uncreated full same_spec new_plotter (λ w cluster b. ("no room", refl)) 100
      backoff wanted [] refl

allows-update_plotter_assets_state_example :
    allows (lookup "asset-1" (update_plotter_assets_state [] deployed)) ≡ (
      allows (lookup "asset-1" [])
      && states_ready "asset-1" deployed.spec.modules deployed.status.modules_state)
allows-update_plotter_assets_state_example =
    allows-update_plotter_assets_state [] deployed "asset-1"

-- A plotter that is being deleted, on an API server that takes every change.
abbrev old_plotter : Plotter
old_plotter = record plotter { deleted = true; finalizers = "Plotter.finalizer" ∷ [] }

abbrev taken : Clusters → Plotter → Clusters × Option String
taken w p = (w, none)

finalizer_gone :
    has_string "Plotter.finalizer"
      (reconcile_finalizers manager taken "Plotter" old_plotter clusters).1.finalizers
    ≡ false
unfolding reconcile_finalizers delete_all has_string keep removed
finalizer_gone = refl

finalizer_there : has_string "Plotter.finalizer" old_plotter.finalizers ≡ true
unfolding has_string
finalizer_there = refl

reconcile_finalizers-IsDeleted_example :
    (old_plotter.deleted ≡ true) × All (IsDeleted manager) old_plotter.status.blueprints
reconcile_finalizers-IsDeleted_example =
    reconcile_finalizers-IsDeleted manager taken "Plotter" old_plotter clusters finalizer_there
      finalizer_gone
