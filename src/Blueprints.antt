-- ===== src/Blueprints.antt =====
-- manager/controllers/app/blueprint_mgr.go: the blueprints of module instances. The hash of
-- utils.CreateStepName is a parameter.
pub mod Steps
pub mod Unify
mod Tests
use mesh_for_data.Base.{
  String, ◌==◌, ◌<>◌, if◌then◌else◌, Bool, true, false, Option, none, some, List, [], ◌∷◌, ◌++◌,
  map, get_or,
}
use mesh_for_data.Base.Maps.{Map, insert, lookup, get_or_zero}
use mesh_for_data.Api.Module.{CapabilityScope, ChartSpec, asset}
use mesh_for_data.Api.Blueprint.{BlueprintModule, BlueprintSpec, ModuleArguments}
use mesh_for_data.Api.Plotter.{Plotter}

pub record ModuleInstanceSpec : Type 0 where
  pub chart : ChartSpec
  pub args : ModuleArguments
  pub asset_ids : List String
  pub cluster_name : String
  pub module_name : String
  pub scope : CapabilityScope

-- `scope == Asset`
abbrev pub is_asset_scope : CapabilityScope → Bool
is_asset_scope asset = true
is_asset_scope _ = false

-- The key by which instances are unified.
unfoldable pub unified_key : ModuleInstanceSpec → String
unified_key i = i.module_name <> "," <> i.cluster_name

-- The first instance with the arguments and assets of a further one.
unfoldable pub unify : ModuleInstanceSpec → ModuleInstanceSpec → ModuleInstanceSpec
unify instance more = record instance {
  args = record instance.args {
    read = instance.args.read ++ more.args.read;
    write = instance.args.write ++ more.args.write;
  };
  asset_ids = instance.asset_ids ++ more.asset_ids;
}

abbrev pub unify_with : ModuleInstanceSpec → Option ModuleInstanceSpec → ModuleInstanceSpec
unify_with more none = more
unify_with more (some instance) = unify instance more

-- The loop of `RefineInstances`: the instances of asset scope, and the others by key.
unfoldable pub refine :
    List ModuleInstanceSpec
    → Map ModuleInstanceSpec
    → List ModuleInstanceSpec × Map ModuleInstanceSpec
unfolding unify unified_key insert lookup
refine [] m = ([], m)
refine (i ∷ rest) m =
    let key = unified_key i in
    let alone = refine rest m in
    let joined = refine rest (insert key (unify_with i (lookup key m)) m) in
    if is_asset_scope i.scope then (i ∷ alone.0, alone.1) else joined

unfoldable pub refine_instances : List ModuleInstanceSpec → List ModuleInstanceSpec
unfolding refine
refine_instances instances =
    let (own, unified) = refine instances [] in
    own ++ map (λ (e : String × ModuleInstanceSpec). e.1) unified

-- The instances by cluster, in order.
unfoldable pub by_cluster :
    List ModuleInstanceSpec → Map (List ModuleInstanceSpec) → Map (List ModuleInstanceSpec)
unfolding insert lookup
by_cluster [] m = m
by_cluster (i ∷ rest) m =
    by_cluster rest (insert i.cluster_name (get_or_zero [] i.cluster_name m ++ i ∷ []) m)

-- `hash asset_id` is `utils.Hash(assetID, 10)`, a prefix of the text's SHA-512 digest.
module _ (hash : String → String) where
  abbrev pub create_step_name : String → String → String
  create_step_name module_name asset_id = module_name <> "-" <> hash asset_id

  -- The key of the instance in the blueprint. Every instance has an asset.
  unfoldable pub instance_name : ModuleInstanceSpec → String
  instance_name i =
      if is_asset_scope i.scope
      then create_step_name i.module_name (get_or i.asset_ids 0 "")
      else i.module_name

  abbrev pub blueprint_module : ModuleInstanceSpec → BlueprintModule
  blueprint_module i = record {
    name = i.module_name;
    chart = i.chart;
    arguments = i.args;
    asset_ids = i.asset_ids;
  }

  -- The loop of `GenerateBlueprint` over the instances.
  unfoldable pub blueprint_modules :
      List ModuleInstanceSpec → Map BlueprintModule → Map BlueprintModule
  unfolding instance_name insert
  blueprint_modules [] m = m
  blueprint_modules (i ∷ rest) m =
      blueprint_modules rest (insert (instance_name i) (blueprint_module i) m)

  unfoldable pub generate_blueprint : List ModuleInstanceSpec → String → Plotter → BlueprintSpec
  unfolding blueprint_modules
  generate_blueprint instances cluster_name plotter = record {
    cluster = cluster_name;
    modules_namespace = plotter.spec.modules_namespace;
    modules = blueprint_modules instances [];
  }

  unfoldable pub generate_blueprints : List ModuleInstanceSpec → Plotter → Map BlueprintSpec
  unfolding by_cluster refine_instances generate_blueprint
  generate_blueprints instances plotter =
      map
        (λ (e : String × List ModuleInstanceSpec).
          (e.0, generate_blueprint (refine_instances e.1) e.0 plotter))
        (by_cluster instances [])
