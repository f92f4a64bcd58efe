-- ===== src/Cleanup/Tests.antt =====
-- The theorems of Cleanup at an application that is being deleted.
use mesh_for_data.Base.{Bool, ◌≡◌, ◌||◌, refl, true, false, none, some, [], ◌∷◌, is_empty, keep}
use mesh_for_data.Base.Maps.{lookup}
use mesh_for_data.Api.Application.{FybrikApplication}
use mesh_for_data.Planner.Choice.{has_string}
use mesh_for_data.Planner.Samples.{application}
use mesh_for_data.Cleanup.{
  Server, delete_datasets, delete_external_resources, delete_generated, reconcile_app_finalizers,
  storage_of,
}
use mesh_for_data.Cleanup.Called.{AreDeleted, IsDeleted, delete_external_resources-AreDeleted}
use mesh_for_data.Cleanup.Emptied.{reconcile_app_finalizers_emptied}

-- A server on which every call succeeds.
abbrev server : Server Bool
server = record {
  delete_dataset = λ w name. (w, none);
  delete_resource = λ w ref. (w, none);
  update_finalizers = λ w a. (w, none);
}

abbrev old_application : FybrikApplication
old_application = record application {
  deleted = true;
  finalizers = "App.finalizer" ∷ [];
  status = record application.status {
    generated = some (record { name = "p"; namespace = "s"; kind = "Plotter"; app_version = 1 });
    provisioned_storage = some (("asset-1", record { dataset_ref = "b"; secret_ref = "c" }) ∷ []);
  };
}

deletion_succeeds : (delete_external_resources server old_application true).2 ≡ none
unfolding delete_external_resources delete_datasets delete_generated
deletion_succeeds = refl

delete_external_resources-AreDeleted_example :
    (between : Bool) × AreDeleted server (storage_of old_application) true between
    × IsDeleted server old_application.status.generated between
        (delete_external_resources server old_application true).0
delete_external_resources-AreDeleted_example =
    delete_external_resources-AreDeleted server old_application true deletion_succeeds

finalizer_there : has_string "App.finalizer" old_application.finalizers ≡ true
unfolding has_string
finalizer_there = refl

finalizer_gone :
    has_string "App.finalizer"
      (reconcile_app_finalizers server "App" old_application true).1.finalizers
    ≡ false
unfolding reconcile_app_finalizers delete_external_resources delete_datasets delete_generated
    has_string keep
finalizer_gone = refl

reconcile_app_finalizers_emptied_example :
    ((old_application.deleted || is_empty old_application.spec.requested) ≡ true)
    × ((reconcile_app_finalizers server "App" old_application true).1.status.generated ≡ none)
    × (lookup "asset-1" (storage_of (reconcile_app_finalizers server "App" old_application true).1)
        ≡ none)
reconcile_app_finalizers_emptied_example =
    reconcile_app_finalizers_emptied server "App" old_application true "asset-1" finalizer_there
      finalizer_gone
