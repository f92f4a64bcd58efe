-- ===== src/Plotting/Ready.antt =====
-- What a run of `reconcile` of Plotting/Reconcile.antt promises of the state that it reports.
use mesh_for_data.Base.{
  String, ℕ, ◌≡◌, refl, ap, subst, sym, ◌∙◌, Bool, true, ◌⊎◌, inl, inr, none, some, [], All, arith,
}
use mesh_for_data.Base.Maps.{Map, has, lookup}
use mesh_for_data.Api.Application.{ObservedState}
use mesh_for_data.Api.Blueprint.{BlueprintSpec}
use mesh_for_data.Api.Plotter.{Plotter}
use mesh_for_data.Plotting.{ClusterManager, Progress, Round, leave, next, visit_all}
use mesh_for_data.Plotting.Assets.{allows}
use mesh_for_data.Plotting.Reconcile.{Reconciled, complete, finish, reconcile_wanted, start, tidy}
use mesh_for_data.Plotting.Tidy.{tidy-wanted, tidy_kept}
use mesh_for_data.Plotting.Visits.{AssetFact, ReadyFact, visit_all-All, visit_asset, visit_ready}

module _ {W : Type 0} (manager : ClusterManager W)
    (same_spec : BlueprintSpec → BlueprintSpec → Bool) (now : ℕ) (backoff : ℕ → ℕ)
    (plotter : Plotter) (wanted : Map BlueprintSpec) (w : W) where
  -- The loop over the clusters, and what the run returns.
  abbrev pub run : W × Progress × Round
  run = visit_all manager same_spec plotter wanted w (start manager same_spec now backoff plotter)

  abbrev pub reconciled : Reconciled
  reconciled = (reconcile_wanted manager same_spec now backoff plotter wanted w).1

  -- A run whose loop was not left.
  record Ends : Type 0 where
    state : W
    progress : Progress
    looped : run ≡ (state, progress, next)
    ended :
        reconciled
        ≡ finish manager same_spec now backoff plotter
            (tidy manager wanted progress.blueprints state progress).1

  complete_next :
      (t : W × Progress × Round)
      → t.2 ≡ next
      → (complete manager same_spec now backoff plotter wanted t).1
        ≡ finish manager same_spec now backoff plotter
            (tidy manager wanted t.1.blueprints t.0 t.1).1
  unfolding complete
  complete_next (state, p, next) h = refl
  complete_next (state, p, leave) h = cc

  ends : run.2 ≡ next → Ends
  unfolding reconcile_wanted
  ends h = record {
    state = run.0;
    progress = run.1;
    looped = ground arith;
    ended = complete_next run h;
  }

  finish_ready :
      (p : Progress)
      → (finish manager same_spec now backoff plotter p).status.observed_state.ready ≡ true
      → p.is_ready ≡ true
  unfolding finish
  finish_ready p h = ground arith

  finish_assets :
      (p : Progress) → (finish manager same_spec now backoff plotter p).status.assets ≡ p.assets
  unfolding finish
  finish_assets p = ground arith

  finish_blueprints :
      (p : Progress)
      → (finish manager same_spec now backoff plotter p).status.blueprints ≡ p.blueprints
  unfolding finish
  finish_blueprints p = ground arith

  finish_errors :
      (p : Progress) → (finish manager same_spec now backoff plotter p).errors ≡ p.errors
  unfolding finish
  finish_errors p = ground arith

  -- If no call of GetBlueprint fails and the plotter is ready after the run, then on each wanted
  -- cluster the creation of the blueprint failed, or the manager found a ready blueprint with the
  -- wanted spec.
  pub reconcile_wanted_ready :
      run.2 ≡ next
      → reconciled.status.observed_state.ready ≡ true
      → All (λ (e : String × BlueprintSpec). ReadyFact manager same_spec plotter e.0 e.1) wanted
  reconcile_wanted_ready h ready =
      let r = ends h in
      let tidied = (tidy manager wanted r.progress.blueprints r.state r.progress).1 in
      let done : tidied.is_ready ≡ true =
        finish_ready tidied
          (ap (λ (x : Reconciled). x.status.observed_state.ready) (sym r.ended) ∙ ready) in
      let looped : r.progress.is_ready ≡ true =
        sym (tidy_kept manager wanted r.progress.blueprints r.state r.progress).0 ∙ done in
      (visit_all-All manager same_spec plotter (λ p. p.is_ready ≡ true)
        (ReadyFact manager same_spec plotter) (visit_ready manager same_spec plotter) wanted w
        (start manager same_spec now backoff plotter) r.state r.progress r.looped looped).1

  -- If no call of GetBlueprint fails and the run reports that an asset is ready, then for each wanted
  -- cluster whose blueprint handles the asset, the manager found a blueprint in which each state of a
  -- module that handles the asset is ready. A module that has no state there makes no difference.
  pub reconcile_wanted_assets :
      (id : String) (state : ObservedState)
      → run.2 ≡ next
      → lookup id reconciled.status.assets ≡ some state
      → state.ready ≡ true
      → All (λ (e : String × BlueprintSpec). AssetFact manager same_spec plotter id e.0 e.1) wanted
  reconcile_wanted_assets id state h found ready =
      let r = ends h in
      let tidied = (tidy manager wanted r.progress.blueprints r.state r.progress).1 in
      let assets : reconciled.status.assets ≡ r.progress.assets =
        ap (λ (x : Reconciled). x.status.assets) r.ended
        ∙ finish_assets tidied
        ∙ (tidy_kept manager wanted r.progress.blueprints r.state r.progress).1 in
      let looped : allows (lookup id r.progress.assets) ≡ true =
        subst (λ m. allows (lookup id m) ≡ true) assets (ap allows found ∙ ready) in
      (visit_all-All manager same_spec plotter (λ p. allows (lookup id p.assets) ≡ true)
        (AssetFact manager same_spec plotter id) (visit_asset manager same_spec plotter id) wanted w
        (start manager same_spec now backoff plotter) r.state r.progress r.looped looped).1

  -- If no call of GetBlueprint fails and the run returns no error, then the plotter has no blueprint
  -- left on a cluster that is not wanted.
  pub reconcile_wanted-tidy :
      (cluster : String)
      → run.2 ≡ next
      → reconciled.errors ≡ []
      → (has cluster wanted ≡ true) ⊎ (lookup cluster reconciled.status.blueprints ≡ none)
  reconcile_wanted-tidy cluster h none_failed =
      let r = ends h in
      let tidied = (tidy manager wanted r.progress.blueprints r.state r.progress).1 in
      let no_errors : tidied.errors ≡ [] =
        sym (finish_errors tidied)
        ∙ ap (λ (x : Reconciled). x.errors) (sym r.ended)
        ∙ none_failed in
      let left : reconciled.status.blueprints ≡ tidied.blueprints =
        ap (λ (x : Reconciled). x.status.blueprints) r.ended ∙ finish_blueprints tidied in
      elim (tidy-wanted manager wanted r.state r.progress cluster no_errors) [
        | inl asked ↦ inl asked
        | inr gone ↦ inr (ap (lookup cluster) left ∙ gone)
      ]
