-- ===== src/Plotting/Finalizers.antt =====
-- What `reconcile_finalizers` of Plotting/Reconcile.antt promises of a plotter that is being deleted.
use mesh_for_data.Base.{
  String, ◌<>◌, ◌≡◌, Bool-cases, true, false, inl, inr, Option, Option-cases, none, [], ◌∷◌, All,
  arith,
}
use mesh_for_data.Base.Maps.{Map}
use mesh_for_data.Api.Blueprint.{MetaBlueprint}
use mesh_for_data.Api.Plotter.{Plotter}
use mesh_for_data.Planner.Choice.{has_string}
use mesh_for_data.Plotting.{ClusterManager}
use mesh_for_data.Plotting.Reconcile.{delete_all, reconcile_finalizers}

module _ {W : Type 0} (manager : ClusterManager W) where
  -- A call that deletes the blueprint succeeded.
  abbrev pub IsDeleted : String × MetaBlueprint → Type 0
  IsDeleted e = (w : W) × ((manager.delete_blueprint w e.0 e.1.namespace e.1.name).1 ≡ none)

  delete_all-IsDeleted :
      (l : Map MetaBlueprint) (w : W) → (delete_all manager l w).1 ≡ none → All IsDeleted l
  unfolding delete_all
  delete_all-IsDeleted [] w h = tt
  delete_all-IsDeleted ((cluster, b) ∷ rest) w h =
      let r = manager.delete_blueprint w cluster b.namespace b.name in
      elim (Option-cases r.1) [
        | inl done ↦ ((w, done), delete_all-IsDeleted rest r.0 (ground arith))
        | inr (e, failed) ↦ absurd (ground arith)
      ]

  module _ (update_finalizers : W → Plotter → W × Option String) (reconciler : String)
      (plotter : Plotter) (w : W) where
    -- If the plotter has the finalizer before the step and not after it, then a call that deletes the
    -- blueprint succeeded for every blueprint of the plotter's status, and the plotter is being
    -- deleted.
    pub reconcile_finalizers-IsDeleted :
        has_string (reconciler <> ".finalizer") plotter.finalizers ≡ true
        → has_string
            (reconciler <> ".finalizer")
            (reconcile_finalizers manager update_finalizers reconciler plotter w).1.finalizers
          ≡ false
        → (plotter.deleted ≡ true) × All IsDeleted plotter.status.blueprints
    unfolding reconcile_finalizers
    reconcile_finalizers-IsDeleted present gone = elim (Bool-cases plotter.deleted) [
      | inr alive ↦ absurd (ground arith)
      | inl deleted ↦ elim (Option-cases (delete_all manager plotter.status.blueprints w).1) [
        | inl done ↦ (deleted, delete_all-IsDeleted plotter.status.blueprints w done)
        | inr (e, failed) ↦ absurd (ground arith)
      ]
    ]
