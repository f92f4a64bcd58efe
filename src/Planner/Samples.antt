-- ===== src/Planner/Samples.antt =====
-- A deployment with one read module and two clusters, for the tests of the planner.
use mesh_for_data.Base.{String, true, false, Option, none, some, List, [], ◌∷◌, ok, err}
use mesh_for_data.Base.Json.{Value, text, object, Fields, end, get_field}
use mesh_for_data.Api.Taxonomy.{Action, Cluster}
use mesh_for_data.Api.Module.{FybrikModule, workload}
use mesh_for_data.Api.Application.{FybrikApplication, unset}
use mesh_for_data.Api.Rules.{Decision, status_true}
use mesh_for_data.Policy.{PolicyEnvironment}
use mesh_for_data.Planner.{DataInfo, PlotterGenerator}

abbrev text_of : Option Value → Option String
text_of (some (text s)) = some s
text_of _ = none

abbrev fields_of : Option Value → Fields
fields_of (some (object fs)) = fs
fields_of _ = end

-- A lookup of a text in a JSON object by the path to it.
unfoldable pub at_path : Fields → List String → Option String
unfolding get_field
at_path fs [] = none
at_path fs (k ∷ []) = text_of (get_field k fs)
at_path fs (k ∷ j ∷ rest) = at_path (fields_of (get_field k fs)) (j ∷ rest)

abbrev pub redact : Action
redact = record { name = "RedactAction"; additional_properties = end }

-- The policy manager allows everything.
abbrev permissive : PolicyEnvironment
permissive = record {
  get_policies_decisions = λ request creds. ok (record { decision_id = "1"; result = [] });
  taxonomy_check = λ response. ok [];
  invalid_error = λ id violations. "invalid";
  vault_enabled = false;
  vault_address = "";
}

abbrev pub reader : FybrikModule
reader = record {
  name = "reader";
  spec = record {
    description = "";
    type = "service";
    plugin_type = "";
    dependencies = [];
    capabilities =
        record {
          capability = "read";
          scope = workload;
          supported_interfaces =
              record {
                source = some (record { protocol = "s3"; data_format = "csv" });
                sink = none;
              }
              ∷ [];
          api = some (record {
            connection = record { name = "flight"; additional_properties = end };
            data_format = "arrow";
          });
          actions = record { name = "RedactAction" } ∷ [];
          plugins = [];
        }
        ∷ [];
    chart = record { name = "reader-chart"; chart_pull_secret = ""; values = [] };
    status_indicators = [];
  };
}

-- A module that copies csv to parquet, and redacts.
abbrev pub copier : FybrikModule
copier = record reader {
  name = "copier";
  spec = record reader.spec {
    capabilities =
        record {
          capability = "copy";
          scope = workload;
          supported_interfaces =
              record {
                source = some (record { protocol = "s3"; data_format = "csv" });
                sink = some (record { protocol = "s3"; data_format = "parquet" });
              }
              ∷ [];
          api = none;
          actions = record { name = "RedactAction" } ∷ [];
          plugins = [];
        }
        ∷ [];
  };
}

abbrev pub cluster_in : String → String → Cluster
cluster_in name region = record {
  name = name;
  metadata = record { region = region; zone = ""; vault_auth_path = "" };
}

abbrev pub generator : PlotterGenerator
generator = record {
  modules = ("copier", copier) ∷ ("reader", reader) ∷ [];
  clusters = cluster_in "north" "norway" ∷ cluster_in "south" "spain" ∷ [];
  policy_manager = permissive;
  storage_account_regions = "spain" ∷ [];
  nested_string = at_path;
}

-- Reading is required, in Spain.
abbrev pub read_in_spain : Decision
read_in_spain = record {
  deploy = status_true;
  deployment_restrictions = record {
    clusters = some (("metadata.region", "spain" ∷ []) ∷ []);
    modules = none;
    storage_accounts = none;
  };
  policy = record { id = "p"; policy_set_id = ""; description = ""; version = "" };
}

abbrev pub item : DataInfo
item = record {
  data_details = record {
    resource_metadata = record {
      name = "asset";
      owner = "";
      geography = "";
      tags = none;
      columns = [];
    };
    details = record {
      connection = record { name = "s3"; additional_properties = end };
      data_format = "csv";
    };
    credentials = "";
  };
  context = record {
    data_set_id = "asset-1";
    catalog_service = "";
    requirements = record {
      interface = record { protocol = "flight"; data_format = "arrow" };
      copy = record {
        required = false;
        catalog = record { catalog_service = ""; catalog_id = "" };
      };
    };
  };
  configuration = record {
    valid = true;
    dataset_id = "asset-1";
    uuid = "u";
    policy_set_id = "";
    config_decisions = ("read", read_in_spain) ∷ [];
    policies = [];
  };
  workload_cluster = cluster_in "north" "norway";
  actions = redact ∷ [];
}

abbrev pub application : FybrikApplication
application = record {
  name = "notebook";
  namespace = "default";
  uid = "u";
  generation = 1;
  deleted = false;
  finalizers = [];
  labels = [];
  spec = record {
    selector = record { cluster_name = "north"; workload_selector_size = 1 };
    secret_ref = "";
    app_info = end;
    requested = item.context ∷ [];
  };
  status = record {
    ready = false;
    error_message = "";
    asset_states = none;
    observed_generation = 0;
    validated_generation = 0;
    valid_application = unset;
    generated = none;
    provisioned_storage = none;
  };
}

-- A request to copy the asset to a store, by an application with no workload.
abbrev pub ingest_item : DataInfo
ingest_item = record item {
  context = record item.context {
    requirements = record item.context.requirements {
      interface = record { protocol = "s3"; data_format = "parquet" };
    };
  };
  configuration = record item.configuration { config_decisions = ("copy", read_in_spain) ∷ [] };
}

abbrev pub ingest_application : FybrikApplication
ingest_application = record application {
  spec = record application.spec {
    selector = record { cluster_name = ""; workload_selector_size = 0 };
    requested = ingest_item.context ∷ [];
  };
}

-- The policy manager cannot be reached.
abbrev pub cut_off : PlotterGenerator
cut_off = record generator {
  policy_manager = record permissive {
    get_policies_decisions = λ request creds. err "connection refused";
  };
}
