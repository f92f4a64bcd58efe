-- ===== src/Servers/Tests.antt =====
-- The servers on a catalog with one asset, ns/a, and an OPA that allows the request.
use mesh_for_data.Base.{
  String, ℕ, suc, ◌==◌, ◌<>◌, if◌then◌else◌, ◌≡◌, refl, none, [], Result, ok, err,
}
use mesh_for_data.Base.Json.{end}
use mesh_for_data.Api.Taxonomy.{no_connection, read}
use mesh_for_data.Policy.{GetPolicyDecisionsRequest, GetPolicyDecisionsResponse}
use mesh_for_data.Servers.{answered, broken, refused}
use mesh_for_data.Servers.Katalog.{AssetSpec, asset_response, get_asset_info, invalid_id}
use mesh_for_data.Servers.Opa.{ConnectorController, opa_endpoint, get_policies_decisions}
use mesh_for_data.Servers.Granted.{get_policies_decisions-IsDecided, IsDecided}

abbrev spec : AssetSpec
spec = record {
  details = record { connection = no_connection; data_format = "csv" };
  metadata = record { name = "a"; owner = "o"; geography = "g"; tags = none; columns = [] };
  secret_ref = "s";
}

abbrev get : String → String → Result AssetSpec
get namespace name = if namespace == "ns" then ok spec else err "not found"

found : get_asset_info get (ok "ns/a") ≡ answered (asset_response "ns" spec)
unfolding get_asset_info
found = refl

missing : get_asset_info get (ok "other/a/b") ≡ refused 500 "not found"
unfolding get_asset_info
missing = refl

-- The handler goes on after the answer of status 400.
unsplit : get_asset_info get (ok "a") ≡ broken 400 (invalid_id "a")
unfolding get_asset_info
unsplit = refl

one_endpoint : opa_endpoint "http://opa//" ≡ opa_endpoint "http://opa"
unfolding opa_endpoint
one_endpoint = refl

abbrev request : GetPolicyDecisionsRequest
request = record {
  context = end;
  action = record { action_type = read; processing_location = ""; destination = "" };
  resource_id = "ns/a";
}

abbrev response : GetPolicyDecisionsResponse
response = record { decision_id = "1"; result = [] }

-- OPA sees the owner of the asset.
abbrev controller : ConnectorController ℕ
controller = record {
  opa_server_url = "http://opa/";
  catalog_asset_info = λ id credentials. ok (asset_response "ns" spec);
  encode = λ q metadata. ok (q.resource_id <> " of " <> metadata.owner);
  post = λ w url body.
      (suc w, if body == "ns/a of o" then ok (200, ok "allowed") else ok (404, ok "unknown"));
  decode = λ text. if text == "allowed" then ok response else err "invalid";
}

allowed : get_policies_decisions controller (ok request) "" 0 ≡ (1, answered response)
unfolding get_policies_decisions asset_response
allowed = refl

get_policies_decisions-IsDecided_example : IsDecided controller (ok request) "" 0 1 response
get_policies_decisions-IsDecided_example =
    get_policies_decisions-IsDecided controller (ok request) "" 0 1 response allowed
