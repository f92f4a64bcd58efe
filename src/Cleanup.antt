-- ===== src/Cleanup.antt =====
-- deleteExternalResources and reconcileFinalizers of
-- manager/controllers/app/fybrikapplication_controller.go: what is deleted with an application. The
-- storage and the interface to the generated resources are parameters.
pub mod Emptied
pub mod Called
mod Tests
use mesh_for_data.Base.{
  String, ◌==◌, ◌<>◌, if◌then◌else◌, is_empty, keep, not, ◌||◌, Option, none, some, List, [], ◌∷◌,
  ◌++◌,
}
use mesh_for_data.Base.Maps.{Map, delete}
use mesh_for_data.Base.Text.{join}
use mesh_for_data.Api.Application.{DatasetDetails, FybrikApplication, ResourceReference}
use mesh_for_data.Planner.Choice.{has_string}

-- The calls on a state `W` of the API server: DeleteDataset for the name of a bucket, DeleteResource,
-- and utils.UpdateFinalizers. `none` is a nil error.
pub record Server (W : Type 0) : Type 0 where
  pub delete_dataset : W → String → W × Option String
  pub delete_resource : W → ResourceReference → W × Option String
  pub update_finalizers : W → FybrikApplication → W × Option String

-- The names of the deleted datasets and the messages of the errors.
pub record Deletions : Type 0 where
  pub keys : List String
  pub messages : List String

abbrev pub add_deletion : String → Option String → Deletions → Deletions
add_deletion id none d = record d { keys = id ∷ d.keys }
add_deletion id (some e) d = record d { messages = e ∷ d.messages }

unfoldable pub delete_keys : List String → Map DatasetDetails → Map DatasetDetails
unfolding delete
delete_keys [] m = m
delete_keys (id ∷ rest) m = delete_keys rest (delete id m)

abbrev pub or_no_storage : Option (Map DatasetDetails) → Map DatasetDetails
or_no_storage none = []
or_no_storage (some m) = m

abbrev pub storage_of : FybrikApplication → Map DatasetDetails
storage_of a = or_no_storage a.status.provisioned_storage

module _ {W : Type 0} (server : Server W) where
  -- The loop over the provisioned storage.
  unfoldable pub delete_datasets : Map DatasetDetails → W → W × Deletions
  delete_datasets [] w = (w, record { keys = []; messages = [] })
  delete_datasets ((id, details) ∷ rest) w =
      let (after, failure) = server.delete_dataset w details.dataset_ref in
      let (last, others) = delete_datasets rest after in (last, add_deletion id failure others)

  -- The deletion of the generated resource.
  unfoldable pub delete_generated :
      FybrikApplication → Option ResourceReference → W → W × FybrikApplication × Option String
  delete_generated a none w = (w, a, none)
  delete_generated a (some ref) w =
      let (after, failure) = server.delete_resource w ref in
      elim failure [
        | some e ↦ (after, a, some e)
        | none ↦ (after, record a { status = record a.status { generated = none } }, none)
      ]

  -- `delete` does nothing on a nil map.
  abbrev pub without : List String → FybrikApplication → FybrikApplication
  without keys a = record a {
    status = record a.status {
      provisioned_storage = elim a.status.provisioned_storage [
        | none ↦ none
        | some m ↦ some (delete_keys keys m)
      ];
    };
  }

  unfoldable pub delete_external_resources :
      FybrikApplication → W → W × FybrikApplication × Option String
  unfolding delete_datasets delete_keys delete_generated join
  delete_external_resources a w =
      let (after, d) = delete_datasets (storage_of a) w in
      let left = without d.keys a in
      if not (is_empty d.messages)
      then (after, left, some (join ";" d.messages))
      else delete_generated left a.status.generated after

  -- The application is changed even where the call that stores it fails.
  unfoldable pub reconcile_app_finalizers :
      String → FybrikApplication → W → W × FybrikApplication × Option String
  unfolding has_string keep delete_external_resources
  reconcile_app_finalizers reconciler a w =
      let finalizer = reconciler <> ".finalizer" in
      let present = has_string finalizer a.finalizers in
      let (after, cleaned, failure) = delete_external_resources a w in
      let removed = record cleaned {
        finalizers = keep (λ f. not (f == finalizer)) cleaned.finalizers;
      } in
      let added = record a { finalizers = a.finalizers ++ finalizer ∷ [] } in
      let (last, removal) = server.update_finalizers after removed in
      let (with, addition) = server.update_finalizers w added in
      if a.deleted || is_empty a.spec.requested
      then (if present
          then elim failure [ some e ↦ (after, cleaned, some e) | none ↦ (last, removed, removal) ]
          else (w, a, none))
      else if present
      then (w, a, none)
      else (with, added, addition)
