-- ===== src/Deploy/Tests.antt =====
-- The theorems of Deploy at a blueprint with one module, on a Helm that has every release and fails
-- nowhere.
use mesh_for_data.Base.{
  String, ℕ, ◌≡◌, refl, Bool, true, false, ◌⊎◌, none, some, [], ◌∷◌, All, Result, ok,
}
use mesh_for_data.Base.Json.{Fields, end}
use mesh_for_data.Base.Maps.{HasKeysOnce, insert, lookup}
use mesh_for_data.Api.Application.{no_state}
use mesh_for_data.Api.Blueprint.{Blueprint, BlueprintModule, BlueprintStatus, ModuleArguments}
use mesh_for_data.Releases.{set_values}
use mesh_for_data.Deploy.{
  Helmer, Platform, apply_chart_resource, copy_map, current_status, deployed,
}
use mesh_for_data.Deploy.Applied.{IsLogoutFailed, IsPut, apply_chart_resource-IsPut}
use mesh_for_data.Deploy.Cleaned.{IsStuck, reconcile_blueprint_releases}
use mesh_for_data.Deploy.Done.{IsRunning, reconcile_blueprint_ready}
use mesh_for_data.Deploy.Reconcile.{reconcile_blueprint, release_of}

abbrev working : Helmer Bool Bool
working = record {
  status = λ w namespace release. ok (some deployed);
  get_resources = λ w namespace release. ok (record { kind = "Pod"; content = end } ∷ []);
  uninstall = λ w namespace release. (w, none);
  pull = λ w name. (w, none);
  registry_login = λ w registry c. (w, none);
  registry_logout = λ w registry. (w, none);
  load = λ w name. ok w;
  upgrade = λ w c namespace release values. (w, none);
  install = λ w c namespace release values. (w, none);
}

abbrev local : Platform Bool Bool
local = record {
  get_secret = λ w name. ok (record { type = "Opaque"; content = end });
  keyring_lookup = λ secret name. none;
  image_domain = λ name. ok "registry";
  make_directory = λ w. (w, none);
  list_modules = λ w. ok [];
  compute = λ res. ok (current_status, "");
  parse_selector = λ condition. ok [];
  requirement_matches = λ r present label. r;
  nested_field = λ content path. ok none;
  nested_string = λ content path. ok "";
  marshal = λ v. ok "";
}

abbrev reader : BlueprintModule
reader = record {
  name = "reader";
  chart = record { name = "reader-chart"; chart_pull_secret = ""; values = [] };
  arguments = record {
    labels = [];
    app_selector = record { cluster_name = ""; workload_selector_size = 0 };
    copy = none;
    read = [];
    write = [];
  };
  asset_ids = "asset-1" ∷ [];
}

-- The status is of the current generation, and an old release is left in it.
abbrev at_work : Blueprint
at_work = record {
  name = "plotter";
  namespace = "system";
  generation = 2;
  deleted = false;
  finalizers = [];
  labels = ("app.fybrik.io/app-name", "app") ∷ ("app.fybrik.io/app-namespace", "default") ∷ [];
  annotations = [];
  spec = record {
    cluster = "north";
    modules_namespace = "modules";
    modules = ("reader", reader) ∷ [];
  };
  status = record {
    observed_state = no_state;
    observed_generation = 2;
    modules_state = [];
    releases = ("old", 1) ∷ [];
  };
}

abbrev arguments_map : ModuleArguments → Result Fields
arguments_map args = ok end

abbrev digest : String → String
digest s = s

abbrev running : BlueprintStatus
running = record {
  observed_state = record { ready = true; error = "" };
  observed_generation = 2;
  modules_state = ("reader", record { ready = true; error = "" }) ∷ [];
  releases = ("app-default-reader", 2) ∷ [];
}

reconciled :
    (reconcile_blueprint working local arguments_map digest at_work true).1 ≡ ok (running, 0)
unfolding reconcile_blueprint release_of insert lookup
reconciled = refl

reconcile_blueprint_ready_example :
    All
      (λ entry. IsRunning working local arguments_map digest at_work true entry.0)
      at_work.spec.modules
reconcile_blueprint_ready_example =
    reconcile_blueprint_ready working local arguments_map digest at_work true running 0 reconciled
      refl

releases_once : HasKeysOnce at_work.status.releases
unfolding lookup
releases_once = (refl, tt)

reconcile_blueprint_releases_example :
    All
      (λ entry.
        lookup (release_of working local arguments_map digest at_work entry.0) running.releases
        ≡ some 2)
      at_work.spec.modules
    × ((release : String) (v : ℕ)
        → lookup release running.releases ≡ some v
        → (v ≡ 2) ⊎ IsStuck working local arguments_map digest at_work release)
reconcile_blueprint_releases_example =
    reconcile_blueprint_releases working local arguments_map digest at_work true running 0
      releases_once reconciled

applied : (apply_chart_resource working local reader.chart end at_work "reader" true).1 ≡ none
unfolding apply_chart_resource
applied = refl

apply_chart_resource-IsPut_example :
    IsPut working local "modules" "reader" (set_values [] (copy_map end))
    ⊎ IsLogoutFailed working local
apply_chart_resource-IsPut_example =
    apply_chart_resource-IsPut working local reader.chart end at_work "reader" true applied
