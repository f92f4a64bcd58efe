-- ===== src/Releases/Tests.antt =====
-- The theorems of Releases at the values of a chart and at a blueprint with one release.
use mesh_for_data.Base.{String, ◌≡◌, refl, true, Bool, Option, none, some, [], ◌∷◌}
use mesh_for_data.Base.Json.{Fields, end, field, get_field, object, text}
use mesh_for_data.Api.Application.{no_state}
use mesh_for_data.Api.Blueprint.{Blueprint}
use mesh_for_data.Releases.{reconcile_blueprint_finalizers, set_path}
use mesh_for_data.Releases.Leaks.{IsStep, reconcile_blueprint_finalizers-IsStep}
use mesh_for_data.Releases.Nested.{get_field-set_path, get_path, get_path-set_path}

abbrev values : Fields
values = field "image" (object (field "name" (text "reader") end)) (field "replicas" (text "1") end)

abbrev changed_values : Fields
changed_values =
    field "image" (object (field "name" (text "reader") (field "tag" (text "v1") end)))
      (field "replicas" (text "1") end)

values_set : set_path ("image" ∷ "tag" ∷ []) (text "v1") values ≡ some changed_values
unfolding set_path
values_set = refl

get_path-set_path_example : get_path ("image" ∷ "tag" ∷ []) changed_values ≡ some (text "v1")
get_path-set_path_example =
    get_path-set_path "image" ("tag" ∷ []) (text "v1") values changed_values values_set

replicas_kept : get_field "replicas" changed_values ≡ get_field "replicas" values
replicas_kept =
    get_field-set_path "image" "replicas" ("tag" ∷ []) (text "v1") values changed_values values_set
      refl

abbrev old_blueprint : Blueprint
old_blueprint = record {
  name = "plotter";
  namespace = "system";
  generation = 1;
  deleted = true;
  finalizers = "Blueprint.finalizer" ∷ [];
  labels = [];
  annotations = [];
  spec = record { cluster = "north"; modules_namespace = "modules"; modules = [] };
  status = record {
    observed_state = no_state;
    observed_generation = 1;
    modules_state = [];
    releases = ("release", 1) ∷ [];
  };
}

-- Helm fails, and the API server takes every change.
abbrev stuck : Bool → String → String → Bool × Option String
stuck w namespace release = (w, some "no connection")

abbrev taken : Bool → Blueprint → Bool × Option String
taken w b = (w, none)

reconcile_blueprint_finalizers-IsStep_example :
    IsStep stuck taken "Blueprint.finalizer" old_blueprint true
      (reconcile_blueprint_finalizers stuck taken "Blueprint" old_blueprint true)
reconcile_blueprint_finalizers-IsStep_example =
    reconcile_blueprint_finalizers-IsStep stuck taken "Blueprint" old_blueprint true
