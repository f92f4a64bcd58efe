-- ===== src/Generate.antt =====
-- manager/controllers/app/plotter_generator.go with AllocateBucket of storage.go: the part of a
-- plotter for one asset. Generate.antt has the storage, Generate/Service the address of a module's
-- service, Generate/Flow the steps.
pub mod Service
pub mod Flow
pub mod Realised
pub mod Declared
pub mod Closed
mod Tests
use mesh_for_data.Base.{
  String, ◌==◌, ◌<>◌, if◌then◌else◌, Bool, Option, none, some, List, [], ◌∷◌, Result, ok, err,
}
use mesh_for_data.Base.Json.{Fields, end, field, object, text}
use mesh_for_data.Base.Maps.{Map, insert, lookup}
use mesh_for_data.Api.Taxonomy.{
  DataStore, InterfaceDetails, Vault, flow_name, read_flow, write_flow,
}
use mesh_for_data.Policy.{path_for_reading_kube_secret}
use mesh_for_data.Names.{generate_bucket_name, hash}
use mesh_for_data.Planner.{DataInfo}

-- A value, an error, or a panic.
pub data Attempt {ℓ} (A : Type ℓ) : Type ℓ where
  done : A → Attempt A
  failed : String → Attempt A
  panics : Attempt A

-- A storage account: the name of its secret, and the endpoints of the regions.
pub record StorageAccount : Type 0 where
  pub secret_ref : String
  pub endpoints : Map String

pub record NamespacedName : Type 0 where
  pub namespace : String
  pub name : String

pub record ProvisionedBucket : Type 0 where
  pub name : String
  pub endpoint : String
  pub secret_ref : NamespacedName

-- What the generator is given: its owner, the API server and the storage on a state `W`, the text of a
-- template filled with values, the digest, and the environment.
pub record Generator (W : Type 0) : Type 0 where
  pub owner : NamespacedName
  pub list_accounts : W → Result (List StorageAccount)
  pub create_dataset : W → NamespacedName → ProvisionedBucket → NamespacedName → W × Option String
  pub fill_template : String → String → Fields → Result String
  pub digest : String → String
  pub vault_enabled : Bool
  pub vault_address : String
  pub modules_role : String
  pub system_namespace : String
  pub modules_namespace : String

-- The state of a generation: that of the storage, and the field ProvisionedStorage.
pub record Stores (W : Type 0) : Type 0 where
  pub world : W
  pub provisioned : Map ProvisionedBucket

-- The loops of AllocateBucket: the first account with an endpoint in the region.
unfoldable pub account_in : String → List StorageAccount → Option (String × String)
unfolding lookup
account_in geo [] = none
account_in geo (account ∷ rest) =
    let later = account_in geo rest in
    elim (lookup geo account.endpoints) [
      | none ↦ later
      | some endpoint ↦ some (endpoint, account.secret_ref)
    ]

abbrev pub no_vault : Vault
no_vault = record { role = ""; secret_path = ""; address = ""; auth_path = "" }

module _ {W : Type 0} (g : Generator W) where
  abbrev pub bucket_of : String → String → Option (String × String) → Result ProvisionedBucket
  bucket_of geo name none = err ("could not allocate a bucket in " <> geo)
  bucket_of geo name (some (endpoint, secret)) = ok (record {
    name = name;
    endpoint = endpoint;
    secret_ref = record { namespace = g.system_namespace; name = secret };
  })

  unfoldable pub allocate_bucket : W → String → String → Result ProvisionedBucket
  unfolding account_in
  allocate_bucket w name geo = elim (g.list_accounts w) [
    | err e ↦ err e
    | ok accounts ↦ bucket_of geo name (account_in geo accounts)
  ]

  -- The access to a secret, if Vault is used.
  abbrev pub vault_of : String → Vault
  vault_of path =
      if g.vault_enabled
      then record {
        role = g.modules_role;
        secret_path = path;
        address = g.vault_address;
        auth_path = "";
      }
      else no_vault

  unfoldable pub copy_object_key : DataInfo → String
  unfolding hash
  copy_object_key item =
      let named = item.data_details.resource_metadata.name in
      if named == ""
      then g.owner.name <> hash g.digest item.context.data_set_id 10
      else named <> hash g.digest (g.owner.name <> g.owner.namespace) 10

  -- The data store of the copy in a bucket.
  unfoldable pub copy_store : DataInfo → InterfaceDetails → ProvisionedBucket → DataStore
  unfolding copy_object_key path_for_reading_kube_secret flow_name insert
  copy_store item destination bucket =
      let access =
        vault_of
          (path_for_reading_kube_secret bucket.secret_ref.namespace bucket.secret_ref.name) in
      record {
        vault = insert (flow_name read_flow) access (insert (flow_name write_flow) access []);
        connection = record {
          name = "s3";
          additional_properties =
              field "s3"
                (object (
                  field "endpoint" (text bucket.endpoint) (
                    field "bucket" (text bucket.name)
                      (field "object_key" (text (copy_object_key item)) end))))
                end;
        };
        format = destination.data_format;
      }

  -- The dataset resource of a bucket, and its place in ProvisionedStorage.
  unfoldable pub create_copy :
      DataInfo
      → Option InterfaceDetails
      → ProvisionedBucket
      → Stores W
      → Stores W × Attempt DataStore
  unfolding copy_store insert
  create_copy item destination bucket s =
      let (after, failure) =
        g.create_dataset s.world (record { namespace = g.system_namespace; name = bucket.name })
          bucket g.owner in
      let kept : Stores W = record {
        world = after;
        provisioned = insert item.context.data_set_id bucket s.provisioned;
      } in
      elim failure [
        | some e ↦ (record s { world = after }, failed e)
        | none ↦ elim destination [
          | none ↦ (kept, panics)
          | some d ↦ (kept, done (copy_store item d bucket))
        ]
      ]

  -- `GetCopyDestination`. A nil interface of the destination is followed at the end.
  unfoldable pub get_copy_destination :
      DataInfo → Option InterfaceDetails → String → Stores W → Stores W × Attempt DataStore
  unfolding generate_bucket_name allocate_bucket create_copy
  get_copy_destination item destination geo s =
      let name =
        generate_bucket_name g.digest g.owner.name g.owner.namespace item.context.data_set_id in
      elim (allocate_bucket s.world name geo) [
        | err e ↦ (s, failed e)
        | ok bucket ↦ create_copy item destination bucket s
      ]
