-- ===== src/Blueprints/Tests.antt =====
-- The theorems of Blueprints at instances of one module for two assets.
use mesh_for_data.Base.{String, ◌≡◌, refl, true, false, ◌⊎◌, none, List, [], ◌∷◌, Memᴰ}
use mesh_for_data.Api.Taxonomy.{no_connection}
use mesh_for_data.Api.Module.{CapabilityScope, asset, workload}
use mesh_for_data.Blueprints.{ModuleInstanceSpec, is_asset_scope, refine_instances}
use mesh_for_data.Blueprints.Unify.{Covers, refine_instances-Covers}

-- A reader of the asset.
abbrev reads : CapabilityScope → String → ModuleInstanceSpec
reads scope id = record {
  chart = record { name = "reader-chart"; chart_pull_secret = ""; values = [] };
  args = record {
    labels = [];
    app_selector = record { cluster_name = ""; workload_selector_size = 0 };
    copy = none;
    read =
        record {
          source = record { vault = []; connection = no_connection; format = "csv" };
          asset_id = id;
          transformations = [];
        }
        ∷ [];
    write = [];
  };
  asset_ids = id ∷ [];
  cluster_name = "north";
  module_name = "reader";
  scope = scope;
}

abbrev instances : List ModuleInstanceSpec
instances = reads workload "asset-1" ∷ reads asset "asset-2" ∷ reads workload "asset-3" ∷ []

refine_instances-Covers_example :
    ((is_asset_scope workload ≡ true)
      × Memᴰ (reads workload "asset-3") (refine_instances instances))
    ⊎ ((is_asset_scope workload ≡ false)
        × ((j : ModuleInstanceSpec) × Memᴰ j (refine_instances instances)
            × Covers (reads workload "asset-3") j))
refine_instances-Covers_example =
    refine_instances-Covers instances (reads workload "asset-3")
      (Memᴰ.tail (Memᴰ.tail (Memᴰ.head refl)))
