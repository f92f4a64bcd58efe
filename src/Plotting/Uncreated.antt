-- ===== src/Plotting/Uncreated.antt =====
-- The run of `reconcile` of Plotting/Reconcile.antt where no blueprint can be created.
use mesh_for_data.Base.{String, ℕ, ◌≡◌, refl, Bool, true, none, some, [], ◌∷◌, arith}
use mesh_for_data.Base.Maps.{Map, lookup}
use mesh_for_data.Api.Blueprint.{Blueprint, BlueprintSpec}
use mesh_for_data.Api.Plotter.{Plotter}
use mesh_for_data.Plotting.{
  ClusterManager, Progress, Round, create, leave, new_blueprint, next, visit, visit_all,
}
use mesh_for_data.Plotting.Reconcile.{complete, finish, reconcile_wanted, start, tidy}

module _ {W : Type 0} (manager : ClusterManager W)
    (same_spec : BlueprintSpec → BlueprintSpec → Bool) (plotter : Plotter)
    (fails : (w : W) (cluster : String) (b : Blueprint)
      → (e : String) × ((manager.create_blueprint w cluster b).1 ≡ some e)) where
  -- No blueprint was made, and the plotter counts as ready.
  abbrev IsBare : W × Progress × Round → Type 0
  IsBare t = (t.2 ≡ next) × (t.1.is_ready ≡ true) × (t.1.blueprints ≡ [])

  visit-none-IsBare :
      (cluster : String) (spec : BlueprintSpec) (w : W) (p : Progress)
      → p.is_ready ≡ true
      → p.blueprints ≡ []
      → IsBare (visit manager same_spec plotter cluster spec none w p)
  unfolding visit create
  visit-none-IsBare cluster spec w p ready bare =
      let (e, failed) = fails w cluster (new_blueprint plotter spec) in
      (refl, ground arith, ground arith)

  visit_all-IsBare :
      (wanted : Map BlueprintSpec) (w : W) (p : Progress)
      → p.is_ready ≡ true
      → p.blueprints ≡ []
      → IsBare (visit_all manager same_spec plotter wanted w p)
  unfolding visit_all lookup
  visit_all-IsBare [] w p ready bare = (refl, ready, bare)
  visit_all-IsBare ((cluster, spec) ∷ rest) w p ready bare =
      let absent : lookup cluster p.blueprints ≡ none = rw bare refl in
      let r = visit manager same_spec plotter cluster spec none w p in
      let (on, still, free) = visit-none-IsBare cluster spec w p ready bare in
      let i = visit_all-IsBare rest r.0 r.1 still free in (ground arith, ground arith, ground arith)

  module _ (now : ℕ) (backoff : ℕ → ℕ) where
    complete_ready :
        (wanted : Map BlueprintSpec) (t : W × Progress × Round)
        → IsBare t
        → (complete manager same_spec now backoff plotter wanted t).1.status.observed_state.ready
          ≡ true
    unfolding complete finish tidy
    complete_ready wanted (w, p, next) (on, ready, bare) = rw (bare, ready) refl
    complete_ready wanted (w, p, leave) (on, ready, bare) = cc

    -- If the plotter has no blueprint yet and every creation of a blueprint fails, then the run
    -- still reports the plotter as ready, whatever blueprints are wanted.
    pub reconcile_wanted_uncreated :
        (wanted : Map BlueprintSpec) (w : W)
        → plotter.status.blueprints ≡ []
        → (reconcile_wanted manager same_spec now backoff plotter wanted
            w).1.status.observed_state.ready
          ≡ true
    unfolding reconcile_wanted
    reconcile_wanted_uncreated wanted w bare =
        complete_ready wanted
          (visit_all manager same_spec plotter wanted w
            (start manager same_spec now backoff plotter))
          (visit_all-IsBare wanted w (start manager same_spec now backoff plotter) refl bare)
