-- ===== src/Plotting/Reconcile.antt =====
-- The rest of `reconcile` of manager/controllers/app/plotter_controller.go behind its loop over the
-- clusters, and `reconcileFinalizers`.
use mesh_for_data.Base.{
  String, ℕ, ◌==◌, ◌<>◌, ◌+◌, ◌-◌, if◌then◌else◌, is_empty, Bool, true, false, not, map_some,
  Option, none, some, List, [], ◌∷◌, ◌++◌, keep, Result, ok, err,
}
use mesh_for_data.Base.Text.{has_prefix}
use mesh_for_data.Base.Maps.{Map, delete, has}
use mesh_for_data.Api.Taxonomy.{Cluster}
use mesh_for_data.Api.Blueprint.{BlueprintSpec, MetaBlueprint}
use mesh_for_data.Api.Plotter.{Plotter, PlotterStatus}
use mesh_for_data.Blueprints.Steps.{get_blueprints_map}
use mesh_for_data.Planner.Choice.{has_string}
use mesh_for_data.Plotting.{ClusterManager, Progress, Round, leave, next, visit_all}

-- What `reconcile` returns with the changed status: the delay in seconds until the next run, 0 for
-- none, and the errors.
pub record Reconciled : Type 0 where
  pub requeue_after : ℕ
  pub errors : List String
  pub status : PlotterStatus

abbrev or_none : Result (List Cluster) → List Cluster
or_none (ok clusters) = clusters
or_none (err e) = []

-- The error of a cluster manager for a blueprint that is gone already.
abbrev pub no_channel : String
no_channel = "Query channelByName error. Could not find the channel with name"

-- The deletion of a blueprint counts as done.
unfoldable pub is_gone : Option String → Bool
unfolding has_prefix
is_gone none = true
is_gone (some e) = has_prefix e no_channel

-- The errors of a deletion that does not count as done.
abbrev pub deletion_errors : Option String → List String
deletion_errors none = []
deletion_errors (some e) = e ∷ []

module _ {W : Type 0} (manager : ClusterManager W) where
  -- The loop that deletes the blueprints of the given entries whose cluster is not wanted.
  unfoldable pub tidy : Map BlueprintSpec → Map MetaBlueprint → W → Progress → W × Progress
  unfolding delete is_gone
  tidy wanted [] w p = (w, p)
  tidy wanted ((cluster, b) ∷ rest) w p =
      let (after, failure) = manager.delete_blueprint w cluster b.namespace b.name in
      let wanted_rest = tidy wanted rest w p in
      let gone_rest =
        tidy wanted rest after (record p { blueprints = delete cluster p.blueprints }) in
      let failed_rest =
        tidy wanted rest after (record p { errors = p.errors ++ deletion_errors failure }) in
      if has cluster wanted then wanted_rest else if is_gone failure then gone_rest else failed_rest

  -- `aggregatedError`
  abbrev pub aggregate : List String → String
  aggregate [] = ""
  aggregate (e ∷ rest) = e <> "\n" <> aggregate rest

  -- The clock stands at `now` seconds during a run, and `backoff` gives the factor
  -- `int(min(exp2(minutes), 60))` for a number of seconds.
  module _ (same_spec : BlueprintSpec → BlueprintSpec → Bool) (now : ℕ) (backoff : ℕ → ℕ) where
    abbrev pub or_now : Option ℕ → ℕ
    or_now none = now
    or_now (some t) = t

    -- The end of `reconcile`, with the status that it leaves.
    unfoldable pub finish : Plotter → Progress → Reconciled
    finish plotter p =
        let status = record plotter.status {
          blueprints = p.blueprints;
          observed_generation = plotter.generation;
          assets = p.assets;
        } in
        let since = or_now plotter.status.ready_timestamp in
        if p.is_ready
        then record {
          requeue_after = if is_empty p.errors then 0 else 4 + backoff (now - since);
          errors = p.errors;
          status = record status {
            ready_timestamp = some since;
            observed_state = record { ready = true; error = p.error };
          };
        }
        else record {
          requeue_after = 5;
          errors = p.errors;
          status = record status {
            ready_timestamp = none;
            observed_state = record {
              ready = false;
              error = if p.error == "" then aggregate p.errors else p.error;
            };
          };
        }

    -- The state of the loop when it starts.
    abbrev pub start : Plotter → Progress
    start plotter = record {
      blueprints = plotter.status.blueprints;
      error = "";
      assets = [];
      is_ready = true;
      errors = [];
    }

    -- A run that a call of GetBlueprint ended. The time since the failure is none.
    abbrev pub left : Plotter → Progress → Reconciled
    left plotter p = record {
      requeue_after = 4 + backoff 0;
      errors = p.errors;
      status = record plotter.status {
        blueprints = p.blueprints;
        observed_state = record plotter.status.observed_state { error = p.error };
      };
    }

    -- The part of `reconcile` behind the loop over the clusters.
    unfoldable pub complete : Plotter → Map BlueprintSpec → W × Progress × Round → W × Reconciled
    unfolding tidy finish
    complete plotter wanted (w, p, leave) = (w, left plotter p)
    complete plotter wanted (w, p, next) =
        let (after, q) = tidy wanted p.blueprints w p in (after, finish plotter q)

    -- `reconcile` for the blueprints that the plotter asks for.
    unfoldable pub reconcile_wanted : Plotter → Map BlueprintSpec → W → W × Reconciled
    unfolding visit_all complete
    reconcile_wanted plotter wanted w =
        complete plotter wanted (visit_all manager same_spec plotter wanted w (start plotter))

    unfoldable pub reconcile : (String → String) → Plotter → W → Option (W × Reconciled)
    unfolding reconcile_wanted get_blueprints_map
    reconcile hash plotter w =
        map_some (λ wanted. reconcile_wanted plotter wanted w)
          (get_blueprints_map (or_none (manager.get_clusters w)) plotter hash)

  -- The loop of `reconcileFinalizers` over the blueprints, up to an error.
  unfoldable pub delete_all : Map MetaBlueprint → W → W × Option String
  delete_all [] w = (w, none)
  delete_all ((cluster, b) ∷ rest) w =
      let (after, failure) = manager.delete_blueprint w cluster b.namespace b.name in
      let more = delete_all rest after in elim failure [ some e ↦ (after, some e) | none ↦ more ]

  -- `update_finalizers` is `utils.UpdateFinalizers`, a call of the API server. The finalizers are
  -- changed in the plotter even where the call fails.
  unfoldable pub reconcile_finalizers :
      (W → Plotter → W × Option String) → String → Plotter → W → W × Plotter × Option String
  unfolding has_string keep delete_all
  reconcile_finalizers update_finalizers reconciler plotter w =
      let finalizer = reconciler <> ".finalizer" in
      let present = has_string finalizer plotter.finalizers in
      let removed = record plotter {
        finalizers = keep (λ f. not (f == finalizer)) plotter.finalizers;
      } in
      let added = record plotter { finalizers = plotter.finalizers ++ finalizer ∷ [] } in
      let (after, failure) = delete_all plotter.status.blueprints w in
      let (last, removal) = update_finalizers after removed in
      let (with, addition) = update_finalizers w added in
      if plotter.deleted
      then (if present
          then elim failure [ some e ↦ (after, plotter, some e) | none ↦ (last, removed, removal) ]
          else (w, plotter, none))
      else if present
      then (w, plotter, none)
      else (with, added, addition)
