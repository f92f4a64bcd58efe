-- ===== src/Assemble/Resource.antt =====
-- manager/controllers/app/resource_gen.go: the plotter of an application. The API server and
-- reflect.DeepEqual are parameters. The labels are copied, where Go shares the map with the application.
use mesh_for_data.Base.{
  String, ◌==◌, ◌<>◌, if◌then◌else◌, Bool, true, false, Option, none, some, [], ◌∷◌, Result, ok,
  err, is_empty,
}
use mesh_for_data.Base.Maps.{Map, insert}
use mesh_for_data.Api.Application.{ObservedState, ResourceReference, no_state}
use mesh_for_data.Api.Plotter.{Plotter, PlotterSpec}

-- The plotters by namespace and name: the read, and `ctrl.CreateOrUpdate` with the change to make.
pub record PlotterStore (W : Type 0) : Type 0 where
  pub get_plotter : W → String → String → Result Plotter
  pub create_or_update : W → String → String → (Plotter → Plotter) → W × Option String
  pub same_spec : PlotterSpec → PlotterSpec → Bool

unfoldable pub create_resource_reference : String → ResourceReference → ResourceReference
create_resource_reference system_namespace owner = record {
  name = owner.name <> "-" <> owner.namespace;
  namespace = system_namespace;
  kind = "Plotter";
  app_version = owner.app_version;
}

-- `ownerLabels`, written over the labels.
unfoldable pub owner_labels : ResourceReference → Map String → Map String
unfolding insert
owner_labels owner labels =
    insert "app.fybrik.io/app-name" owner.name
      (insert "app.fybrik.io/app-namespace" owner.namespace labels)

-- The change to the plotter.
unfoldable pub fill_plotter :
    ResourceReference → PlotterSpec → Map String → String → Plotter → Plotter
unfolding owner_labels
fill_plotter owner spec labels uuid p = record p {
  spec = spec;
  labels = owner_labels owner labels;
  annotations =
      if is_empty p.annotations then ("app.fybrik.io/app-uuid", uuid) ∷ [] else p.annotations;
}

module _ {W : Type 0} (store : PlotterStore W) where
  unfoldable pub resource_exists : Option ResourceReference → W → Bool
  resource_exists none w = false
  resource_exists (some ref) w =
      let found = store.get_plotter w ref.namespace ref.name in
      if ref.namespace == "" then false else elim found [ ok p ↦ true | err e ↦ false ]

  abbrev pub is_same : PlotterSpec → Result Plotter → Bool
  is_same spec (err e) = false
  is_same spec (ok p) = store.same_spec p.spec spec

  unfoldable pub create_or_update_resource :
      ResourceReference
      → ResourceReference
      → PlotterSpec
      → Map String
      → String
      → W
      → W × Option String
  unfolding fill_plotter
  create_or_update_resource owner ref spec labels uuid w =
      if is_same spec (store.get_plotter w ref.namespace ref.name)
      then (w, none)
      else store.create_or_update w ref.namespace ref.name (fill_plotter owner spec labels uuid)

  abbrev pub state_of : Result Plotter → Result ObservedState
  state_of (err e) = err e
  state_of (ok p) = ok p.status.observed_state

  unfoldable pub get_resource_status : Option ResourceReference → W → Result ObservedState
  get_resource_status none w = ok no_state
  get_resource_status (some ref) w =
      if ref.namespace == ""
      then ok no_state
      else state_of (store.get_plotter w ref.namespace ref.name)
