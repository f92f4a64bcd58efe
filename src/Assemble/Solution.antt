-- ===== src/Assemble/Solution.antt =====
-- `buildSolution` of manager/controllers/app/fybrikapplication_controller.go, with GetAllModules and
-- getStorageAccountRegions. `none` is a panic.
use mesh_for_data.Base.{
  String, ℕ, Option, none, some, List, [], ◌∷◌, ◌++◌, Result, ok, err, and_then,
}
use mesh_for_data.Base.Json.{Fields}
use mesh_for_data.Base.Maps.{Map, insert}
use mesh_for_data.Api.Module.{FybrikModule}
use mesh_for_data.Api.Application.{FybrikApplication}
use mesh_for_data.Api.Plotter.{PlotterSpec}
use mesh_for_data.Planner.{DataInfo, PlotterGenerator}
use mesh_for_data.Generate.{Generator, StorageAccount, Stores, done, failed, panics}
use mesh_for_data.Generate.Flow.{add_flow_info_for_asset}
use mesh_for_data.Status.{States, analyze_error}
use mesh_for_data.Assemble.{Services}

-- The modules by their names.
unfoldable pub modules_by_name : List FybrikModule → Map FybrikModule → Map FybrikModule
unfolding insert
modules_by_name [] m = m
modules_by_name (x ∷ rest) m = modules_by_name rest (insert x.name x m)

abbrev pub region_names : Map String → List String
region_names [] = []
region_names ((region, endpoint) ∷ rest) = region ∷ region_names rest

unfoldable pub account_regions : List StorageAccount → List String
account_regions [] = []
account_regions (account ∷ rest) = region_names account.endpoints ++ account_regions rest

-- The stores and the specification behind the loop over the items, and the states with the errors.
pub record Built (W : Type 0) : Type 0 where
  pub stores : Stores W
  pub spec : PlotterSpec
  pub states : States

-- What the solution needs besides the services: the generator, whose owner is set here, the modules,
-- the lookup of a text in a JSON object, and the greatest length of a path.
pub record Workshop (W : Type 0) : Type 0 where
  pub generator : Generator W
  pub list_modules : W → Result (List FybrikModule)
  pub nested_string : Fields → List String → Option String
  pub data_path_max : ℕ

module _ {W : Type 0} (services : Services W) (workshop : Workshop W)
    (application : FybrikApplication) where
  abbrev pub own_generator : Generator W
  own_generator = record (workshop.generator) {
    owner = record { namespace = application.namespace; name = application.name };
  }

  -- The loop over the items. An item without a solution is an error of its asset.
  unfoldable pub add_flows : PlotterGenerator → List DataInfo → Built W → Option (Built W)
  unfolding add_flow_info_for_asset analyze_error
  add_flows p [] b = some b
  add_flows p (item ∷ rest) b =
      let (after, outcome) =
        add_flow_info_for_asset own_generator item application p workshop.data_path_max b.spec
          b.stores in
      elim outcome [
        | done spec ↦ add_flows p rest (record b { stores = after; spec = spec })
        | failed e ↦
            and_then (analyze_error b.states item.context.data_set_id (some e))
              (λ m. add_flows p rest (record b { stores = after; states = m }))
        | panics ↦ none
      ]

  abbrev pub new_spec : PlotterSpec
  new_spec = record {
    selector = application.spec.selector;
    assets = [];
    flows = [];
    modules_namespace = workshop.generator.modules_namespace;
    templates = [];
  }

  abbrev pub as_built : Option (Built W) → Option (Result (Built W))
  as_built none = none
  as_built (some b) = some (ok b)

  unfoldable pub build_solution : List DataInfo → W → States → Option (Result (Built W))
  unfolding modules_by_name account_regions add_flows
  build_solution items w m = elim (workshop.list_modules w) [
    | err e ↦ some (err e)
    | ok modules ↦ elim (workshop.generator.list_accounts w) [
      | err e ↦ some (err e)
      | ok accounts ↦ elim (services.clusters w) [
        | err e ↦ some (err e)
        | ok clusters ↦ as_built (
            add_flows
              (record {
                modules = modules_by_name modules [];
                clusters = clusters;
                policy_manager = services.policy;
                storage_account_regions = account_regions accounts;
                nested_string = workshop.nested_string;
              })
              items
              (record {
                stores = record { world = w; provisioned = [] };
                spec = new_spec;
                states = m;
              }))
      ]
    ]
  ]
