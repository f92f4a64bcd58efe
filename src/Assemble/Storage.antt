-- ===== src/Assemble/Storage.antt =====
-- `updateProvisionedStorageStatus` of manager/controllers/app/fybrikapplication_controller.go. The
-- storage is a parameter, which gets the name of a dataset's resource.
use mesh_for_data.Base.{
  String, ◌==◌, if◌then◌else◌, Bool, true, false, Option, [], ◌∷◌, Result, ok, err,
}
use mesh_for_data.Base.Maps.{Map, delete, has, insert, lookup}
use mesh_for_data.Api.Application.{DatasetDetails}
use mesh_for_data.Generate.{ProvisionedBucket}

-- pkg/storage/storage_provisioning.go
pub record ProvisionedStorageStatus : Type 0 where
  pub provisioned : Bool
  pub error_msg : String

pub record Provision (W : Type 0) : Type 0 where
  pub delete_dataset : W → String → W × Option String
  pub get_dataset_status : W → String → Result ProvisionedStorageStatus

-- The new entries: the name of the bucket and that of its secret.
unfoldable pub add_buckets : Map ProvisionedBucket → Map DatasetDetails → Map DatasetDetails
unfolding insert
add_buckets [] m = m
add_buckets ((id, bucket) ∷ rest) m =
    add_buckets rest
      (insert id (record { dataset_ref = bucket.name; secret_ref = bucket.secret_ref.name }) m)

module _ {W : Type 0} (provision : Provision W) where
  -- The loop that deletes the buckets that are not asked for any more, whether their resources can be
  -- deleted or not.
  unfoldable pub drop_buckets :
      Map ProvisionedBucket → Map DatasetDetails → W → Map DatasetDetails → W × Map DatasetDetails
  unfolding lookup delete
  drop_buckets wanted [] w m = (w, m)
  drop_buckets wanted ((id, details) ∷ rest) w m =
      let (after, failure) = provision.delete_dataset w details.dataset_ref in
      let kept = drop_buckets wanted rest w m in
      let gone = drop_buckets wanted rest after (delete id m) in
      if has id wanted then kept else gone

  -- The loop over the statuses: `ok true` where all are provisioned.
  unfoldable pub check_buckets : W → Map DatasetDetails → Result Bool
  check_buckets w [] = ok true
  check_buckets w ((id, details) ∷ rest) =
      let later = check_buckets w rest in
      elim (provision.get_dataset_status w details.dataset_ref) [
        | err e ↦ ok false
        | ok s ↦
            if s.provisioned then later else if s.error_msg == "" then ok false else err s.error_msg
      ]

  -- The entries of the status, and whether they are ready or an error.
  unfoldable pub update_provisioned_storage_status :
      Map ProvisionedBucket → Map DatasetDetails → W → W × Map DatasetDetails × Result Bool
  unfolding add_buckets drop_buckets check_buckets
  update_provisioned_storage_status wanted old w =
      let (after, kept) = drop_buckets wanted old w old in
      let new = add_buckets wanted kept in (after, new, check_buckets after new)
