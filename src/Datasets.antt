-- ===== src/Datasets.antt =====
-- pkg/storage/storage_provisioning.go: the Dataset resources of buckets (ProvisionImpl). The client of
-- the API server and the functions on nested fields are parameters. The implementation for tests is left
-- out.
pub mod Again
mod Tests
use mesh_for_data.Base.{
  String, ◌==◌, ◌<>◌, if◌then◌else◌, Bool, true, false, Option, none, some, List, [], ◌∷◌, Result,
  ok, err,
}
use mesh_for_data.Base.Json.{Fields, end}
use mesh_for_data.Base.Maps.{Map, insert}
use mesh_for_data.Generate.{NamespacedName, ProvisionedBucket}
use mesh_for_data.Assemble.Storage.{ProvisionedStorageStatus}

-- A Dataset object, with its fields besides the metadata.
pub record Dataset : Type 0 where
  pub ref : NamespacedName
  pub labels : Map String
  pub content : Fields

-- The client on a state `W`, and on nested fields the read of a text, with `none` where it is not there
-- or no text, and the write of a map of texts.
pub record Client (W : Type 0) : Type 0 where
  pub get : W → NamespacedName → Result Dataset
  pub create : W → Dataset → W × Option String
  pub update : W → Dataset → W × Option String
  pub delete : W → Dataset → W × Option String
  pub nested_string : Fields → List String → Option String
  pub set_nested_string_map : Fields → Map String → List String → Result Fields

abbrev pub or_empty : Option String → String
or_empty none = ""
or_empty (some s) = s

-- The fields of the specification.
abbrev pub local_values : ProvisionedBucket → Map String
local_values bucket =
    ("type", "COS")
    ∷ ("secret-name", bucket.secret_ref.name)
    ∷ ("secret-namespace", bucket.secret_ref.namespace)
    ∷ ("endpoint", bucket.endpoint)
    ∷ ("bucket", bucket.name)
    ∷ ("provision", "true")
    ∷ []

abbrev pub dataset_labels : NamespacedName → Map String
dataset_labels owner =
    ("fybrik.io/owner", owner.namespace <> "." <> owner.name) ∷ ("remove-on-delete", "true") ∷ []

module _ {W : Type 0} (client : Client W) where
  abbrev pub get_value : Fields → List String → String
  get_value content path = or_empty (client.nested_string content path)

  -- The field of the specification.
  abbrev pub local_value : Dataset → String → String
  local_value d key = get_value d.content ("spec" ∷ "local" ∷ key ∷ [])

  unfoldable pub equal : ProvisionedBucket → Dataset → Bool
  equal required d =
      if required.name == local_value d "bucket"
      then if required.endpoint == local_value d "endpoint"
        then if required.secret_ref.name == local_value d "secret-name"
          then required.secret_ref.namespace == local_value d "secret-namespace"
          else false
        else false
      else false

  -- The end of `CreateDataset`.
  unfoldable pub create_new :
      NamespacedName → ProvisionedBucket → NamespacedName → W → W × Option String
  create_new ref bucket owner w =
      elim (client.set_nested_string_map end (local_values bucket) ("spec" ∷ "local" ∷ [])) [
        | err e ↦ (w, some e)
        | ok content ↦
            client.create w (record { ref = ref; labels = dataset_labels owner; content = content })
      ]

  unfoldable pub delete_dataset : NamespacedName → W → W × Option String
  delete_dataset ref w = elim (client.get w ref) [ err e ↦ (w, some e) | ok d ↦ client.delete w d ]

  unfoldable pub create_dataset :
      NamespacedName → ProvisionedBucket → NamespacedName → W → W × Option String
  unfolding equal create_new delete_dataset
  create_dataset ref bucket owner w =
      let (deleted, failure) = delete_dataset ref w in
      let again = create_new ref bucket owner deleted in
      let new = create_new ref bucket owner w in
      elim (client.get w ref) [
        | err e ↦ new
        | ok d ↦
            if equal bucket d
            then (w, none)
            else elim failure [ some e ↦ (deleted, some e) | none ↦ again ]
      ]

  unfoldable pub set_persistent : NamespacedName → Bool → W → W × Option String
  unfolding insert
  set_persistent ref persistent w = elim (client.get w ref) [
    | err e ↦ (w, some e)
    | ok d ↦ client.update w (record d {
      labels = insert "remove-on-delete" (if persistent then "false" else "true") d.labels;
    })
  ]

  unfoldable pub get_dataset_status : NamespacedName → W → Result ProvisionedStorageStatus
  get_dataset_status ref w = elim (client.get w ref) [
    | err e ↦ err e
    | ok d ↦ ok (record {
      provisioned = get_value d.content ("status" ∷ "provision" ∷ "status" ∷ []) == "OK";
      error_msg = get_value d.content ("status" ∷ "provision" ∷ "info" ∷ []);
    })
  ]
