-- ===== src/Status/Readiness.antt =====
-- checkReadiness of manager/controllers/app/fybrikapplication_controller.go, and RegisterAsset of
-- data_catalog_interface.go. The storage is a parameter.
use mesh_for_data.Base.{
  String, ◌==◌, ◌<>◌, if◌then◌else◌, and_then, map_some, not, Option, none, some, List, [], ◌∷◌,
  Result, ok, err,
}
use mesh_for_data.Base.Maps.{Map, insert, lookup}
use mesh_for_data.Api.Application.{
  AssetState, DataContext, DatasetDetails, FybrikApplication, ObservedState,
}
use mesh_for_data.Status.{
  States, condition, deny_index, holds, init_status, set_error_condition, set_ready_condition,
  states_of, with_states,
}

-- The experimental registration of an asset, of data_catalog_interface.go.
unfoldable pub register_asset : String → DatasetDetails → FybrikApplication → Result String
register_asset catalog_id info application = err "Unsupported feature"

-- `set_persistent` is `SetPersistent(bucket, true)` of the storage, for the name of a bucket.
module _ {W : Type 0} (set_persistent : W → String → W × Option String) where
  -- The registration succeeded or failed.
  unfoldable pub registered : States → String → Result String → Option States
  unfolding insert lookup set_ready_condition set_error_condition
  registered m id (err e) = set_error_condition m id e
  registered m id (ok new_id) =
      and_then (lookup id m)
        (λ s. set_ready_condition (insert id (record s { cataloged_asset = new_id }) m) id)

  -- The bucket of an asset that is to be registered.
  unfoldable pub register_bucket :
      FybrikApplication → DataContext → Option DatasetDetails → W → States → Option (W × States)
  unfolding set_error_condition register_asset registered
  register_bucket a d none w m =
      map_some (λ next. (w, next))
        (set_error_condition m d.data_set_id (
          "No copy has been created for the asset " <> d.data_set_id
          <> " required to be registered"))
  register_bucket a d (some bucket) w m =
      let (after, failure) = set_persistent w bucket.dataset_ref in
      map_some (λ next. (after, next))
        (elim failure [
          | some e ↦ set_error_condition m d.data_set_id e
          | none ↦
              registered m d.data_set_id
                (register_asset d.requirements.copy.catalog.catalog_id bucket a)
        ])

  abbrev pub cataloged : Option AssetState → String
  cataloged none = ""
  cataloged (some s) = s.cataloged_asset

  abbrev pub buckets_of : Option (Map DatasetDetails) → Map DatasetDetails
  buckets_of none = []
  buckets_of (some m) = m

  -- An asset that is not denied, for a plotter that is ready and has no error.
  unfoldable pub ready_asset : FybrikApplication → DataContext → W → States → Option (W × States)
  unfolding lookup register_bucket set_ready_condition
  ready_asset a d w m =
      if d.requirements.copy.catalog.catalog_id == ""
      then map_some (λ next. (w, next)) (set_ready_condition m d.data_set_id)
      else if not (cataloged (lookup d.data_set_id m) == "")
      then some (w, m)
      else register_bucket a d (lookup d.data_set_id (buckets_of a.status.provisioned_storage)) w m

  -- One round of the loop of `checkReadiness`.
  unfoldable pub check_asset :
      FybrikApplication → ObservedState → DataContext → W → States → Option (W × States)
  unfolding condition set_error_condition ready_asset
  check_asset a status d w m = and_then (condition m d.data_set_id deny_index) (λ deny.
      if holds deny.status
      then some (w, m)
      else if not (status.error == "")
      then map_some (λ next. (w, next)) (set_error_condition m d.data_set_id status.error)
      else if not status.ready
      then some (w, m)
      else ready_asset a d w m)

  unfoldable pub check_all :
      FybrikApplication → ObservedState → List DataContext → W → States → Option (W × States)
  unfolding check_asset
  check_all a status [] w m = some (w, m)
  check_all a status (d ∷ rest) w m =
      and_then (check_asset a status d w m) (λ (after, next). check_all a status rest after next)

  -- `checkReadiness` for an application whose states are there.
  unfoldable pub check_with : FybrikApplication → ObservedState → W → Option (W × FybrikApplication)
  unfolding check_all
  check_with a status w =
      map_some (λ (r : W × States). (r.0, with_states a r.1))
        (check_all a status a.spec.requested w (states_of a.status.asset_states))

  unfoldable pub check_readiness :
      FybrikApplication → ObservedState → W → Option (W × FybrikApplication)
  unfolding init_status check_with
  check_readiness a status w = elim a.status.asset_states [
    | none ↦ check_with (init_status a) status w
    | some m ↦ check_with a status w
  ]
