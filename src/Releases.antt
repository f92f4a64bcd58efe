-- ===== src/Releases.antt =====
-- Parts of manager/controllers/app/blueprint_controller.go: SetMapField with the loop over the values
-- of a chart in applyChartResource, and reconcileFinalizers with deleteExternalResources. Helm and the
-- API server are parameters.
pub mod Nested
pub mod Leaks
mod Tests
use mesh_for_data.Base.{
  String, ◌==◌, ◌<>◌, if◌then◌else◌, is_empty, keep, and_then, map_some, not, Bool, true, false,
  Option, none, some, List, [], ◌∷◌, ◌++◌, ℕ,
}
use mesh_for_data.Base.Json.{Fields, Value, end, get_field, object, set_field, text}
use mesh_for_data.Base.Maps.{Map}
use mesh_for_data.Base.Text.{join, split_dots}
use mesh_for_data.Api.Blueprint.{Blueprint}
use mesh_for_data.Planner.Choice.{has_string}

-- The map under a component on the way: a new one if there is none, and `none` for a value that is
-- no map.
abbrev pub sub_map : Option Value → Option Fields
sub_map none = some end
sub_map (some (object old)) = some old
sub_map (some _) = none

-- The loop of `SetMapField` over the components of the key: the changed map, or `none` where a
-- component on the way is no map, which leaves the map as it is and makes the result false.
unfoldable pub set_path : List String → Value → Fields → Option Fields
unfolding set_field get_field
set_path [] new obj = some obj
set_path (k ∷ []) new obj = some (set_field k new obj)
set_path (k ∷ j ∷ rest) new obj =
    and_then (sub_map (get_field k obj))
      (λ old. map_some (λ sub. set_field k (object sub) obj) (set_path (j ∷ rest) new old))

abbrev pub or_same : Fields → Option Fields → Fields × Bool
or_same obj none = (obj, false)
or_same obj (some changed) = (changed, true)

unfoldable pub set_map_field : Fields → String → Value → Fields × Bool
unfolding set_path split_dots
set_map_field obj k v = or_same obj (set_path (split_dots k) v obj)

-- The values of the chart, set one by one in the arguments.
unfoldable pub set_values : Map String → Fields → Fields
unfolding set_map_field
set_values [] args = args
set_values ((k, v) ∷ rest) args = set_values rest (set_map_field args k (text v)).0

module _ {W : Type 0} (uninstall : W → String → String → W × Option String) where
  -- The messages of the errors of `deleteExternalResources`.
  unfoldable pub uninstall_all : String → Map ℕ → W → W × List String
  uninstall_all namespace [] w = (w, [])
  uninstall_all namespace ((release, generation) ∷ rest) w =
      let (after, failure) = uninstall w namespace release in
      let (last, errors) = uninstall_all namespace rest after in
      (last, elim failure [ none ↦ errors | some e ↦ e ∷ errors ])

  unfoldable pub delete_releases : Blueprint → W → W × Option String
  unfolding uninstall_all join
  delete_releases b w =
      let (after, errors) = uninstall_all b.spec.modules_namespace b.status.releases w in
      (after, if is_empty errors then none else some (join "; " errors))

  -- `update_finalizers` is `utils.UpdateFinalizers`. The error of the deletion is only logged.
  unfoldable pub reconcile_blueprint_finalizers :
      (W → Blueprint → W × Option String) → String → Blueprint → W → W × Blueprint × Option String
  unfolding has_string keep delete_releases
  reconcile_blueprint_finalizers update_finalizers reconciler b w =
      let finalizer = reconciler <> ".finalizer" in
      let present = has_string finalizer b.finalizers in
      let removed = record b { finalizers = keep (λ f. not (f == finalizer)) b.finalizers } in
      let added = record b { finalizers = b.finalizers ++ finalizer ∷ [] } in
      let (after, failure) = delete_releases b w in
      let (last, removal) = update_finalizers after removed in
      let (with, addition) = update_finalizers w added in
      if b.deleted
      then (if present then (last, removed, removal) else (w, b, none))
      else if present
      then (w, b, none)
      else (with, added, addition)
