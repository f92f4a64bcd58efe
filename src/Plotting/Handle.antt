-- ===== src/Plotting/Handle.antt =====
-- `Reconcile` of manager/controllers/app/plotter_controller.go. The API server is a parameter; `none` is
-- a panic.
use mesh_for_data.Base.{
  String, ℕ, ◌<>◌, if◌then◌else◌, Bool, Option, none, some, List, [], ◌∷◌, Result, ok, err,
  map_some,
}
use mesh_for_data.Api.Blueprint.{BlueprintSpec}
use mesh_for_data.Api.Plotter.{Plotter, PlotterStatus}
use mesh_for_data.Plotting.{ClusterManager}
use mesh_for_data.Plotting.Reconcile.{Reconciled, reconcile, reconcile_finalizers}

-- `get_plotter` gives `none` for an object that is not there. `update_status` is `utils.UpdateStatus`,
-- with the status that was there before.
pub record PlotterServer (W : Type 0) : Type 0 where
  pub get_plotter : W → Result (Option Plotter)
  pub update_finalizers : W → Plotter → W × Option String
  pub update_status : W → Plotter → PlotterStatus → W × Option String

-- The first of the errors, or the delay.
abbrev pub first_error : List String → ℕ → Result ℕ
first_error [] delay = ok delay
first_error (e ∷ rest) delay = err ("failed to reconcile plotter: " <> e)

module _ {W : Type 0} (manager : ClusterManager W)
    (same_spec : BlueprintSpec → BlueprintSpec → Bool) (now : ℕ) (backoff : ℕ → ℕ)
    (hash : String → String) (server : PlotterServer W) (name : String) where
  -- The status is stored, and then the errors are returned.
  unfoldable pub store_status : Plotter → W → Reconciled → W × Result ℕ
  store_status p w r =
      let (after, failure) = server.update_status w (record p { status = r.status }) p.status in
      elim failure [
        | some e ↦ (after, err ("failed to update plotter status: " <> e))
        | none ↦ (after, first_error r.errors r.requeue_after)
      ]

  unfoldable pub reconcile_present : Plotter → W → Option (W × Result ℕ)
  unfolding reconcile store_status
  reconcile_present p w =
      map_some (λ (done : W × Reconciled). store_status p done.0 done.1)
        (reconcile manager same_spec now backoff hash p w)

  -- `Reconcile`: the delay in seconds until the next run, 0 for none. `name` is the reconciler's.
  unfoldable pub handle_plotter : W → Option (W × Result ℕ)
  unfolding reconcile_finalizers reconcile_present
  handle_plotter w = elim (server.get_plotter w) [
    | err e ↦ some (w, err e)
    | ok none ↦ some (w, ok 0)
    | ok (some p) ↦
        let (after, noted, failure) =
          reconcile_finalizers manager server.update_finalizers name p w in
        let next = reconcile_present noted after in
        elim failure [
          | some e ↦ some (after, err e)
          | none ↦ if p.deleted then some (after, ok 0) else next
        ]
  ]
