-- ===== src/Generate/Tests.antt =====
-- The theorems of Generate at an asset that is copied, from an empty specification.
use mesh_for_data.Base.{ℕ, ◌≡◌, refl, true, none, [], ◌∷◌, Memᴰ, ok}
use mesh_for_data.Api.Plotter.{PlotterSpec}
use mesh_for_data.Planner.{Solution}
use mesh_for_data.Planner.Choice.{
  add_storage, capability_on_path, destination_node, find_paths, source_node,
}
use mesh_for_data.Planner.{supports_sink_interface, supports_source_interface}
use mesh_for_data.Policy.{lookup_policy_decisions}
use mesh_for_data.Planner.Samples.{at_path, generator, ingest_application, ingest_item}
use mesh_for_data.Generate.{Generator, Attempt, Stores, done}
use mesh_for_data.Generate.Closed.{add_flow_info_for_asset-IsClosed}
use mesh_for_data.Generate.Declared.{IsClosed}
use mesh_for_data.Generate.Flow.{add_flow_info_for_asset}
use mesh_for_data.Generate.Realised.{IsExtended, add_flow_info_for_asset-IsExtended}

abbrev maker : Generator ℕ
maker = record {
  owner = record { namespace = "default"; name = "notebook" };
  list_accounts = λ w.
      ok (record { secret_ref = "account"; endpoints = ("spain", "http://s3.spain") ∷ [] } ∷ []);
  create_dataset = λ w ref bucket owner. (w, none);
  fill_template = λ key template values. ok template;
  digest = λ s. s;
  vault_enabled = true;
  vault_address = "http://vault";
  modules_role = "module";
  system_namespace = "system";
  modules_namespace = "modules";
}

abbrev stores : Stores ℕ
stores = record { world = 0; provisioned = [] }

abbrev no_flows : PlotterSpec
no_flows = record {
  selector = record { cluster_name = ""; workload_selector_size = 0 };
  assets = [];
  flows = [];
  modules_namespace = "modules";
  templates = [];
}

abbrev or_spec : PlotterSpec → Attempt PlotterSpec → PlotterSpec
or_spec spec (done new) = new
or_spec spec _ = spec

abbrev copied : PlotterSpec
copied =
    or_spec no_flows
      (add_flow_info_for_asset maker ingest_item ingest_application generator 2 no_flows stores).1

copied_done :
    (add_flow_info_for_asset maker ingest_item ingest_application generator 2 no_flows stores).1
    ≡ done copied
unfolding add_flow_info_for_asset find_paths at_path supports_sink_interface
    supports_source_interface capability_on_path source_node destination_node add_storage
    lookup_policy_decisions
copied_done = refl

add_flow_info_for_asset-IsExtended_example :
    (selection : Solution) × Memᴰ selection (find_paths generator 2 ingest_item ingest_application)
    × IsExtended maker ingest_item ingest_application selection.data_path no_flows copied
add_flow_info_for_asset-IsExtended_example =
    add_flow_info_for_asset-IsExtended maker ingest_item ingest_application generator 2 no_flows
      copied stores copied_done

add_flow_info_for_asset-IsClosed_example : IsClosed copied
add_flow_info_for_asset-IsClosed_example =
    add_flow_info_for_asset-IsClosed maker ingest_item ingest_application generator 2 no_flows
      copied stores copied_done tt
