-- ===== src/Assemble/Tests.antt =====
-- The theorems of Assemble at an application whose asset is copied.
use mesh_for_data.Base.{ℕ, ◌≡◌, refl, true, false, Option, none, some, [], ◌∷◌, ok, err, suc}
use mesh_for_data.Base.Json.{end, null}
use mesh_for_data.Planner.{supports_sink_interface, supports_source_interface}
use mesh_for_data.Planner.Choice.{
  add_storage, capability_on_path, destination_node, find_paths, source_node,
}
use mesh_for_data.Policy.{lookup_policy_decisions}
use mesh_for_data.Planner.Samples.{
  at_path, copier, generator, ingest_application, ingest_item, read_in_spain,
}
use mesh_for_data.Config.{Engine}
use mesh_for_data.Config.Policies.{evaluate}
use mesh_for_data.Generate.Flow.{add_flow_info_for_asset}
use mesh_for_data.Assemble.{Services}
use mesh_for_data.Assemble.Guarded.{IsGuarded, reconcile_application-IsGuarded}
use mesh_for_data.Assemble.Reconcile.{Assembled, reconcile_application}
use mesh_for_data.Assemble.Resource.{PlotterStore}
use mesh_for_data.Assemble.Solution.{Workshop}
use mesh_for_data.Assemble.Storage.{Provision}

abbrev engine : Engine
engine = record {
  prepare_input = λ input. ok end;
  eval = λ fields. ok ((null ∷ []) ∷ []);
  taxonomy_check = λ value. ok [];
  invalid_error = λ uuid violations. uuid;
  decode = λ value. ok (record { capability = "copy"; decision = read_in_spain } ∷ []);
}

abbrev services : Services ℕ
services = record {
  get_asset_info = λ creds asset_id. ok ingest_item.data_details;
  asset_check = λ response. ok [];
  invalid_error = λ id violations. "invalid";
  policy = generator.policy_manager;
  engine = engine;
  local_clusters = λ w. ok [];
  clusters = λ w. ok generator.clusters;
}

abbrev workshop : Workshop ℕ
workshop = record {
  generator = record {
    owner = record { namespace = ""; name = "" };
    list_accounts = λ w.
        ok (record { secret_ref = "account"; endpoints = ("spain", "http://s3.spain") ∷ [] } ∷ []);
    create_dataset = λ w ref bucket owner. (w, none);
    fill_template = λ key template values. ok template;
    digest = λ s. s;
    vault_enabled = true;
    vault_address = "http://vault";
    modules_role = "module";
    system_namespace = "system";
    modules_namespace = "modules";
  };
  list_modules = λ w. ok (copier ∷ []);
  nested_string = at_path;
  data_path_max = 2;
}

abbrev provision : Provision ℕ
provision = record {
  delete_dataset = λ w name. (w, none);
  get_dataset_status = λ w name. ok (record { provisioned = true; error_msg = "" });
}

-- Each write of a plotter counts one.
abbrev store : PlotterStore ℕ
store = record {
  get_plotter = λ w namespace name. err "not found";
  create_or_update = λ w namespace name change. (suc w, none);
  same_spec = λ s t. false;
}

abbrev or_first : Option (Assembled ℕ) → Assembled ℕ
or_first none = record { world = 0; application = ingest_application; outcome = ok 0 }
or_first (some r) = r

abbrev assembled : Assembled ℕ
assembled = or_first (reconcile_application services workshop provision store ingest_application 0)

assembled_done :
    reconcile_application services workshop provision store ingest_application 0 ≡ some assembled
unfolding reconcile_application add_flow_info_for_asset find_paths at_path supports_sink_interface
    supports_source_interface capability_on_path source_node destination_node add_storage
    lookup_policy_decisions evaluate
assembled_done = refl

assembled_once : assembled.world ≡ 1
unfolding reconcile_application add_flow_info_for_asset find_paths at_path supports_sink_interface
    supports_source_interface capability_on_path source_node destination_node add_storage
    lookup_policy_decisions evaluate
assembled_once = refl

reconcile_application-IsGuarded_example :
    IsGuarded services workshop provision store ingest_application assembled
reconcile_application-IsGuarded_example =
    reconcile_application-IsGuarded services workshop provision store ingest_application 0 assembled
      assembled_done
