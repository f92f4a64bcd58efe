-- ===== src/Servers/Katalog.antt =====
-- connectors/katalog/pkg/connector/connector.go: the lookup of an asset among the Kubernetes resources.
use Prim.Native.Char.{code}
use mesh_for_data.Base.{String, nat_eq, if◌then◌else◌, ◌<>◌, Option, none, some, Result, ok, err}
use mesh_for_data.Api.Taxonomy.{GetAssetResponse, ResourceDetails, ResourceMetadata}
use mesh_for_data.Policy.{path_for_reading_kube_secret}
use mesh_for_data.Servers.{Reply, answered, bad_request, broken, internal_server_error, refused}

pub record AssetSpec : Type 0 where
  pub details : ResourceDetails
  pub metadata : ResourceMetadata
  pub secret_ref : String

abbrev pub onto_front : String → Option (String × String) → Option (String × String)
onto_front c none = none
onto_front c (some (front, back)) = some (c <> front, back)

-- `strings.SplitN(s, "/", 2)`, where that has two parts.
unfoldable pub split_id : String → Option (String × String)
split_id String.[] = none
split_id (String.◌∷◌ c s) =
    let rest = split_id s in
    if nat_eq (code c) b'/' then some ("", s) else onto_front (String.◌∷◌ c "") rest

unfoldable pub invalid_id : String → String
invalid_id id = "request has an invalid asset ID " <> id <> " (must be in namespace/name format)"

unfoldable pub asset_response : String → AssetSpec → GetAssetResponse
unfolding path_for_reading_kube_secret
asset_response namespace spec = record {
  resource_metadata = spec.metadata;
  details = spec.details;
  credentials = path_for_reading_kube_secret namespace spec.secret_ref;
}

-- The handler on a request for the asset, or the error of its parsing. After the answer that refuses
-- an invalid identifier it does not return.
unfoldable pub get_asset_info :
    (String → String → Result AssetSpec) → Result String → Reply GetAssetResponse
unfolding split_id
get_asset_info get (err e) = refused bad_request e
get_asset_info get (ok id) = elim (split_id id) [
  | none ↦ broken bad_request (invalid_id id)
  | some (namespace, name) ↦ elim (get namespace name) [
    | err e ↦ refused internal_server_error e
    | ok spec ↦ answered (asset_response namespace spec)
  ]
]
