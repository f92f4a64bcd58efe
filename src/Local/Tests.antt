-- ===== src/Local/Tests.antt =====
-- The cluster manager of Local on a client with one cluster, north.
use mesh_for_data.Base.{ℕ, suc, ◌≡◌, refl, false, none, some, [], ◌∷◌, ok, err}
use mesh_for_data.Api.Application.{no_state}
use mesh_for_data.Api.Blueprint.{Blueprint}
use mesh_for_data.Local.{LocalClient, local_manager}

abbrev counting : LocalClient ℕ
counting = record {
  get_config_map = λ w. ok (("ClusterName", "north") ∷ []);
  get = λ w namespace name. err "not found";
  create_or_update = λ w namespace name change. (suc w, none);
  delete = λ w b. (w, none);
}

abbrev blueprint : Blueprint
blueprint = record {
  name = "plotter";
  namespace = "system";
  generation = 1;
  deleted = false;
  finalizers = [];
  labels = [];
  annotations = [];
  spec = record { cluster = "north"; modules_namespace = "modules"; modules = [] };
  status = record {
    observed_state = no_state;
    observed_generation = 1;
    modules_state = [];
    releases = [];
  };
}

created_here : (local_manager counting).create_blueprint 0 "north" blueprint ≡ (1, none)
unfolding local_manager
created_here = refl

refused_elsewhere :
    (local_manager counting).create_blueprint 0 "south" blueprint
    ≡ (0, some "unregistered cluster: south")
unfolding local_manager
refused_elsewhere = refl
