-- ===== src/Razee/Tests.antt =====
-- The cluster manager for Razee on a service that counts the calls that change it.
use mesh_for_data.Base.{
  String, ℕ, suc, ◌==◌, if◌then◌else◌, nat_eq, Bool, true, false, ◌+◌, ◌≡◌, refl, Option, none,
  some, [], ◌∷◌, Result, ok, err,
}
use mesh_for_data.Api.Application.{no_state}
use mesh_for_data.Api.Blueprint.{Blueprint}
use mesh_for_data.Razee.{Channel, SatCon, get_blueprint}
use mesh_for_data.Razee.Blueprints.{create_blueprint, update_blueprint}

abbrev blueprint : Blueprint
blueprint = record {
  name = "plotter";
  namespace = "system";
  generation = 1;
  deleted = false;
  finalizers = [];
  labels = [];
  annotations = [];
  spec = record { cluster = "north"; modules_namespace = "modules"; modules = [] };
  status = record {
    observed_state = no_state;
    observed_generation = 1;
    modules_state = [];
    releases = [];
  };
}

abbrev channel : Channel
channel = record {
  uuid = "c1";
  versions = record { uuid = "v1"; name = "7" } ∷ record { uuid = "v0"; name = "0" } ∷ [];
  subscriptions = "s1" ∷ [];
}

abbrev read_number : String → Result ℕ
read_number name = if name == "7" then ok 7 else if name == "0" then ok 0 else err "invalid syntax"

-- The service with one cluster, north. `full` says that a subscription fails.
abbrev counting : Bool → (ℕ → String → Result (Option Channel)) → SatCon ℕ
counting full channel_by_name = record {
  org_id = "org";
  cluster_group = "";
  group_by_name = λ w name. ok none;
  clusters_by_org = λ w. ok [];
  cluster_by_name = λ w name.
      if name == "north" then ok (some (record { name = name; cluster_id = "1" })) else ok none;
  resource_content = λ w cluster link. ok (some "text");
  decode_config_map = λ content. ok [];
  decode_blueprint = λ content. (blueprint, none);
  marshal = λ b. ok b.name;
  atoi = read_number;
  itoa = λ n. if nat_eq n 8 then "8" else "?";
  add_group = λ w name. (suc w, ok "g");
  group_clusters = λ w group clusters. (suc w, none);
  channel_by_name = channel_by_name;
  add_channel = λ w name. (suc w, ok "c");
  add_channel_version = λ w channel name content. (suc w, ok name);
  add_subscription =
      λ w name channel version groups. if full then (w, some "full") else (suc w, none);
  set_subscription = λ w subscription version. (w + (if version == "8" then 10 else 0), none);
  remove_subscription = λ w subscription. (suc w, none);
  remove_channel_version = λ w version. (suc w, none);
  remove_channel = λ w channel. (suc w, none);
}

abbrev without_channel : ℕ → String → Result (Option Channel)
without_channel w name = err "Query channelByName error. not found"

abbrev with_channel : ℕ → String → Result (Option Channel)
with_channel w name = ok (some channel)

-- The group, its cluster, the channel, its version and the subscription.
created : create_blueprint (counting false without_channel) 0 "north" blueprint ≡ some (5, none)
unfolding create_blueprint
created = refl

-- Four calls and the removal of the version and of the channel.
taken_back :
    create_blueprint (counting true without_channel) 0 "north" blueprint ≡ some (6, some "full")
unfolding create_blueprint
taken_back = refl

-- The greatest version is 7.
updated : update_blueprint (counting false with_channel) 0 "north" blueprint ≡ some (11, none)
unfolding update_blueprint
updated = refl

-- A cluster that is not there is a panic here.
absent_cluster : get_blueprint (counting false with_channel) 0 "south" "system" "plotter" ≡ none
unfolding get_blueprint
absent_cluster = refl
