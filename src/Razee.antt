-- ===== src/Razee.antt =====
-- pkg/multicluster/razee/razee_cluster_manager.go: the cluster manager for Razee. The client of the
-- service, the codecs and strconv are parameters; an answer is nil only where the types say so, and
-- `none` as a whole result is the panic on it. The set-up of the client is left out.
pub mod Blueprints
mod Bounds
mod Tests
use mesh_for_data.Base.{
  String, ℕ, ◌==◌, ◌<>◌, if◌then◌else◌, Option, none, some, List, [], ◌∷◌, Result, ok, err,
}
use mesh_for_data.Base.Maps.{Map}
use mesh_for_data.Api.Taxonomy.{Cluster}
use mesh_for_data.Api.Blueprint.{Blueprint}
use mesh_for_data.Local.{create_cluster}

pub record RazeeCluster : Type 0 where
  pub name : String
  pub cluster_id : String

pub record Group : Type 0 where
  pub uuid : String
  pub clusters : List RazeeCluster

pub record Version : Type 0 where
  pub uuid : String
  pub name : String

-- A channel, with the identifiers of its subscriptions.
pub record Channel : Type 0 where
  pub uuid : String
  pub versions : List Version
  pub subscriptions : List String

-- The service for one organization. A new group, channel or version is its identifier. `atoi` is
-- strconv.Atoi with 0 for a negative number, and `itoa` strconv.Itoa of the int that a 64-bit word stands
-- for. `decode_blueprint` gives what is decoded beside the error.
pub record SatCon (W : Type 0) : Type 0 where
  pub org_id : String
  pub cluster_group : String
  pub group_by_name : W → String → Result (Option Group)
  pub clusters_by_org : W → Result (List RazeeCluster)
  pub cluster_by_name : W → String → Result (Option RazeeCluster)
  pub resource_content : W → String → String → Result (Option String)
  pub decode_config_map : String → Result (Map String)
  pub decode_blueprint : String → Blueprint × Option String
  pub marshal : Blueprint → Result String
  pub atoi : String → Result ℕ
  pub itoa : ℕ → String
  pub add_group : W → String → W × Result String
  pub group_clusters : W → String → List String → W × Option String
  pub channel_by_name : W → String → Result (Option Channel)
  pub add_channel : W → String → W × Result String
  pub add_channel_version : W → String → String → String → W × Result String
  pub add_subscription : W → String → String → String → List String → W × Option String
  pub set_subscription : W → String → String → W × Option String
  pub remove_subscription : W → String → W × Option String
  pub remove_channel_version : W → String → W × Option String
  pub remove_channel : W → String → W × Option String

abbrev pub metadata_link : String
metadata_link = "/api/v1/namespaces/fybrik-system/configmaps/cluster-metadata"

abbrev pub create_blueprint_self_link : String → String → String
create_blueprint_self_link namespace name =
    "/apis/app.fybrik.io/v1alpha1/namespaces/" <> namespace <> "/blueprints/" <> name

abbrev pub cons_cluster : Result (Map String) → Result (List Cluster) → Result (List Cluster)
cons_cluster (err e) rest = err e
cons_cluster (ok entries) (err e) = err e
cons_cluster (ok entries) (ok rest) = ok (create_cluster entries ∷ rest)

module _ {W : Type 0} (con : SatCon W) where
  -- The loop over the clusters; one without the metadata is left out.
  unfoldable pub fetch_clusters : W → List RazeeCluster → Result (List Cluster)
  fetch_clusters w [] = ok []
  fetch_clusters w (c ∷ rest) =
      let others = fetch_clusters w rest in
      elim (con.resource_content w c.cluster_id metadata_link) [
        | err e ↦ err e
        | ok none ↦ others
        | ok (some content) ↦ cons_cluster (con.decode_config_map content) others
      ]

  unfoldable pub get_clusters : W → Option (Result (List Cluster))
  unfolding fetch_clusters
  get_clusters w =
      let of_group =
        elim (con.group_by_name w con.cluster_group) as (λ x. Option (Result (List Cluster))) [
          | err e ↦ some (err e)
          | ok none ↦ none
          | ok (some g) ↦ some (fetch_clusters w g.clusters)
        ] in
      let of_all = elim (con.clusters_by_org w) as (λ x. Option (Result (List Cluster))) [
        | err e ↦ some (err e)
        | ok l ↦ some (fetch_clusters w l)
      ] in
      if con.cluster_group == "" then of_all else of_group

  -- The blueprint that is decoded. Without a namespace it counts as absent, whatever the error.
  abbrev pub decoded : Blueprint × Option String → Result (Option Blueprint)
  decoded (b, none) = if b.namespace == "" then ok none else ok (some b)
  decoded (b, some e) = if b.namespace == "" then ok none else err e

  unfoldable pub read_blueprint : W → String → String → Result (Option Blueprint)
  read_blueprint w cluster_id link = elim (con.resource_content w cluster_id link) [
    | err e ↦ err e
    | ok none ↦ ok none
    | ok (some content) ↦ if content == "" then ok none else decoded (con.decode_blueprint content)
  ]

  unfoldable pub get_blueprint : W → String → String → String → Option (Result (Option Blueprint))
  unfolding read_blueprint
  get_blueprint w cluster namespace name = elim (con.cluster_by_name w cluster) [
    | err e ↦ some (err e)
    | ok none ↦ none
    | ok (some c) ↦ some (read_blueprint w c.cluster_id (create_blueprint_self_link namespace name))
  ]
