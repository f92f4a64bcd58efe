-- ===== src/Local.antt =====
-- pkg/multicluster/local/local_cluster_manager.go: the cluster manager of one cluster, which is that of
-- the controllers, with CreateCluster of pkg/multicluster/multi_cluster_manager.go. The client of the API
-- server is a parameter.
mod Tests
use mesh_for_data.Base.{
  String, ◌==◌, ◌<>◌, if◌then◌else◌, Option, none, some, List, [], ◌∷◌, Result, ok, err,
}
use mesh_for_data.Base.Maps.{Map, get_or_zero, lookup}
use mesh_for_data.Api.Taxonomy.{Cluster}
use mesh_for_data.Api.Blueprint.{Blueprint}
use mesh_for_data.Plotting.{ClusterManager}

-- The data of the config map with the cluster's metadata, and the blueprints by namespace and name.
-- `create_or_update` makes a change to the blueprint, which is new if it is not there.
pub record LocalClient (W : Type 0) : Type 0 where
  pub get_config_map : W → Result (Map String)
  pub get : W → String → String → Result Blueprint
  pub create_or_update : W → String → String → (Blueprint → Blueprint) → W × Option String
  pub delete : W → Blueprint → W × Option String

unfoldable pub create_cluster : Map String → Cluster
unfolding lookup
create_cluster entries = record {
  name = get_or_zero "" "ClusterName" entries;
  metadata = record {
    region = get_or_zero "" "Region" entries;
    zone = get_or_zero "" "Zone" entries;
    vault_auth_path = get_or_zero "" "VaultAuthPath" entries;
  };
}

module _ {W : Type 0} (client : LocalClient W) where
  unfoldable pub get_clusters : W → Result (List Cluster)
  unfolding create_cluster
  get_clusters w = elim (client.get_config_map w) [
    | err e ↦ err ("error in GetClusters: " <> e)
    | ok entries ↦ ok (create_cluster entries ∷ [])
  ]

  abbrev pub only_name : Result (List Cluster) → Result String
  only_name (err e) = err e
  only_name (ok (c ∷ [])) = ok c.name
  only_name (ok _) = err "cluster configuration does not support the requirements"

  unfoldable pub get_local_cluster_name : W → Result String
  unfolding get_clusters
  get_local_cluster_name w = only_name (get_clusters w)

  -- Whether the cluster is the local one, or the error.
  unfoldable pub unregistered : String → W → Option String
  unfolding get_local_cluster_name
  unregistered cluster w = elim (get_local_cluster_name w) [
    | err e ↦ some ("unregistered cluster: " <> cluster)
    | ok name ↦ if name == cluster then none else some ("unregistered cluster: " <> cluster)
  ]

  unfoldable pub get_blueprint : W → String → String → String → Result Blueprint
  unfolding unregistered
  get_blueprint w cluster namespace name = elim (unregistered cluster w) [
    | some e ↦ err e
    | none ↦ client.get w namespace name
  ]

  -- The change that UpdateBlueprint makes.
  abbrev pub overwrite : Blueprint → Blueprint → Blueprint
  overwrite b old = record old { spec = b.spec; labels = b.labels; annotations = b.annotations }

  unfoldable pub update_blueprint : W → String → Blueprint → W × Option String
  unfolding unregistered
  update_blueprint w cluster b = elim (unregistered cluster w) [
    | some e ↦ (w, some e)
    | none ↦ client.create_or_update w b.namespace b.name (overwrite b)
  ]

  unfoldable pub delete_blueprint : W → String → String → String → W × Option String
  unfolding get_blueprint
  delete_blueprint w cluster namespace name = elim (get_blueprint w cluster namespace name) [
    | err e ↦ (w, some e)
    | ok b ↦ client.delete w b
  ]

  abbrev pub as_found : Result Blueprint → Result (Option Blueprint)
  as_found (err e) = err e
  as_found (ok b) = ok (some b)

  -- The manager that Plotting takes. `CreateBlueprint` is `UpdateBlueprint`.
  unfoldable pub local_manager : ClusterManager W
  unfolding get_clusters get_blueprint update_blueprint delete_blueprint
  local_manager = record {
    get_clusters = get_clusters;
    get_blueprint = λ w cluster namespace name. as_found (get_blueprint w cluster namespace name);
    create_blueprint = update_blueprint;
    update_blueprint = update_blueprint;
    delete_blueprint = delete_blueprint;
  }
