-- ===== src/Assemble/Reconcile.antt =====
-- `reconcile` and `Reconcile` of manager/controllers/app/fybrikapplication_controller.go. `none` is a
-- panic. The check of an application against the schema, the environment variable for web hooks and
-- the API server are parameters.
use mesh_for_data.Base.{
  String, ℕ, ◌==◌, if◌then◌else◌, is_empty, Bool, true, false, Option, none, some, List, [], ◌∷◌,
  Result, ok, err, and_then,
}
use mesh_for_data.Base.Maps.{Map}
use mesh_for_data.Api.Taxonomy.{Cluster}
use mesh_for_data.Api.Application.{DatasetDetails, FybrikApplication, ResourceReference}
use mesh_for_data.Api.Plotter.{PlotterSpec}
use mesh_for_data.Cleanup.{storage_of}
use mesh_for_data.Planner.{DataInfo}
use mesh_for_data.Status.{States, get_error_messages, init_status, states_of, with_states}
use mesh_for_data.Assemble.{Services, gather_requirements, get_workload_cluster}
use mesh_for_data.Assemble.Endpoints.{set_read_modules_endpoints}
use mesh_for_data.Assemble.Resource.{
  PlotterStore, create_or_update_resource, create_resource_reference,
}
use mesh_for_data.Assemble.Solution.{Built, Workshop, build_solution}
use mesh_for_data.Assemble.Storage.{Provision, update_provisioned_storage_status}

-- The state, the application, and the delay in seconds until the next run or an error.
pub record Assembled (W : Type 0) : Type 0 where
  pub world : W
  pub application : FybrikApplication
  pub outcome : Result ℕ

abbrev pub with_storage : FybrikApplication → Map DatasetDetails → FybrikApplication
with_storage a m = record a { status = record a.status { provisioned_storage = some m } }

abbrev pub with_generated : FybrikApplication → ResourceReference → FybrikApplication
with_generated a ref = record a { status = record a.status { generated = some ref } }

abbrev pub with_error_message : FybrikApplication → String → FybrikApplication
with_error_message a e = record a { status = record a.status { error_message = e } }

abbrev pub owner_of : FybrikApplication → ResourceReference
owner_of a = record {
  name = a.name;
  namespace = a.namespace;
  kind = "";
  app_version = a.generation;
}

module _ {W : Type 0} (services : Services W) (workshop : Workshop W) (provision : Provision W)
    (store : PlotterStore W) where
  unfoldable pub reference_of : FybrikApplication → ResourceReference
  unfolding create_resource_reference
  reference_of a = create_resource_reference workshop.generator.system_namespace (owner_of a)

  -- The plotter is written or was refused.
  unfoldable pub conclude_write : FybrikApplication → W × Option String → Assembled W
  unfolding reference_of
  conclude_write a (w, none) = record {
    world = w;
    application = with_generated a (reference_of a);
    outcome = ok 0;
  }
  conclude_write a (w, some e) =
      if e == "cluster configuration does not support the requirements"
      then record { world = w; application = with_error_message a e; outcome = ok 0 }
      else record { world = w; application = a; outcome = err e }

  -- The storage is ready: the addresses are noted and the plotter is written.
  unfoldable pub write_plotter : FybrikApplication → PlotterSpec → W → Option (Assembled W)
  unfolding set_read_modules_endpoints create_or_update_resource conclude_write reference_of
  write_plotter a spec w =
      and_then
        (set_read_modules_endpoints a.spec.requested spec.flows (states_of a.status.asset_states))
        (λ m.
          let noted = with_states a m in
          some (
            conclude_write noted (
              create_or_update_resource store (owner_of noted) (reference_of noted) spec
                noted.labels noted.uid w)))

  unfoldable pub after_storage :
      FybrikApplication → PlotterSpec → W → Result Bool → Option (Assembled W)
  unfolding write_plotter
  after_storage a spec w (err e) = some (record { world = w; application = a; outcome = err e })
  after_storage a spec w (ok false) = some (record { world = w; application = a; outcome = ok 2 })
  after_storage a spec w (ok true) = write_plotter a spec w

  -- The solution has no errors: the storage is brought up to date.
  unfoldable pub settle_storage : FybrikApplication → Built W → Option (Assembled W)
  unfolding update_provisioned_storage_status after_storage
  settle_storage a b =
      let (after, buckets, ready) =
        update_provisioned_storage_status provision b.stores.provisioned (storage_of a)
          b.stores.world in
      after_storage (with_storage a buckets) b.spec after ready

  -- The solution for the requirements.
  unfoldable pub settle_solution : FybrikApplication → W → Result (Built W) → Option (Assembled W)
  unfolding settle_storage get_error_messages
  settle_solution a w (err e) = some (record { world = w; application = a; outcome = err e })
  settle_solution a w (ok b) =
      let built = with_states a b.states in
      and_then (get_error_messages built) (λ message.
        if message == ""
        then settle_storage built b
        else some (record { world = b.stores.world; application = built; outcome = ok 0 }))

  unfoldable pub settle_requirements :
      FybrikApplication → W → List DataInfo × States → Option (Assembled W)
  unfolding build_solution settle_solution
  settle_requirements a w ([], m) =
      some (record { world = w; application = with_states a m; outcome = ok 0 })
  settle_requirements a w (item ∷ items, m) =
      and_then (build_solution services workshop a (item ∷ items) w m)
        (λ result. settle_solution (with_states a m) w result)

  unfoldable pub settle_cluster : FybrikApplication → W → Result Cluster → Option (Assembled W)
  unfolding gather_requirements settle_requirements
  settle_cluster a w (err e) = some (record { world = w; application = a; outcome = err e })
  settle_cluster a w (ok workload) =
      and_then
        (gather_requirements services a workload a.spec.requested (states_of a.status.asset_states))
        (settle_requirements a w)

  -- `reconcile`
  unfoldable pub reconcile_application : FybrikApplication → W → Option (Assembled W)
  unfolding init_status get_workload_cluster settle_cluster
  reconcile_application a w =
      let fresh = with_storage (init_status a) (storage_of a) in
      if is_empty a.spec.requested
      then some (record { world = w; application = fresh; outcome = ok 0 })
      else settle_cluster fresh w (get_workload_cluster services fresh w)
