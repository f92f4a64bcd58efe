-- ===== src/Deploy/Handle.antt =====
-- `Reconcile` of manager/controllers/app/blueprint_controller.go. The reads and writes of the API
-- server and reflect.DeepEqual on statuses are parameters.
use mesh_for_data.Base.{String, ℕ, ◌<>◌, if◌then◌else◌, Bool, Option, none, some, Result, ok, err}
use mesh_for_data.Base.Json.{Fields}
use mesh_for_data.Api.Blueprint.{Blueprint, BlueprintStatus, ModuleArguments}
use mesh_for_data.Releases.{reconcile_blueprint_finalizers}
use mesh_for_data.Deploy.{Helmer, Platform}
use mesh_for_data.Deploy.Reconcile.{reconcile_blueprint}

-- `get_blueprint` gives `none` for an object that is not there. `update_status` is `utils.UpdateStatus`.
pub record BlueprintServer (W : Type 0) : Type 0 where
  pub get_blueprint : W → Result (Option Blueprint)
  pub update_finalizers : W → Blueprint → W × Option String
  pub update_status : W → Blueprint → BlueprintStatus → W × Option String
  pub same_status : BlueprintStatus → BlueprintStatus → Bool

module _ {W C R : Type 0} (helm : Helmer W C) (platform : Platform W R) (server : BlueprintServer W)
    (arguments_map : ModuleArguments → Result Fields) (digest : String → String)
    (name : String) where
  -- The write of the status, if it is another one, and the delay.
  unfoldable pub save_status : Blueprint → W → Result (BlueprintStatus × ℕ) → W × Result ℕ
  save_status b w (err e) = (w, err ("failed to reconcile blueprint: " <> e))
  save_status b w (ok (status, delay)) =
      let (saved, failure) = server.update_status w (record b { status = status }) b.status in
      if server.same_status status b.status then (w, ok delay) else elim failure [
        | none ↦ (saved, ok delay)
        | some e ↦ (saved, err ("failed to update blueprint status: " <> e))
      ]

  -- The steps behind the finalizers.
  unfoldable pub deploy_blueprint : Blueprint → W → W × Result ℕ
  unfolding reconcile_blueprint save_status
  deploy_blueprint b w =
      let (after, result) = reconcile_blueprint helm platform arguments_map digest b w in
      if b.deleted then (w, ok 0) else save_status b after result

  -- `Reconcile`: the delay in seconds until the next run, 0 for none. `name` is the reconciler's.
  unfoldable pub handle_blueprint : W → W × Result ℕ
  unfolding reconcile_blueprint_finalizers deploy_blueprint
  handle_blueprint w = elim (server.get_blueprint w) [
    | err e ↦ (w, err e)
    | ok none ↦ (w, ok 0)
    | ok (some b) ↦
        let (after, noted, failure) =
          reconcile_blueprint_finalizers helm.uninstall server.update_finalizers name b w in
        elim failure [ some e ↦ (after, err e) | none ↦ deploy_blueprint noted after ]
  ]
