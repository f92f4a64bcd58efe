-- ===== src/Servers/Opa.antt =====
-- connectors/opa/connector.go: the decision of OPA on a request, with the metadata of the asset from
-- the data catalog. The catalog, OPA's HTTP endpoint and the JSON codec are parameters.
use Prim.Native.Char.{code}
use mesh_for_data.Base.{String, ℕ, nat_eq, ◌==◌, if◌then◌else◌, ◌<>◌, ◌&&◌, Result, ok, err}
use mesh_for_data.Api.Taxonomy.{GetAssetResponse, ResourceMetadata}
use mesh_for_data.Policy.{GetPolicyDecisionsRequest, GetPolicyDecisionsResponse}
use mesh_for_data.Servers.{Reply, answered, bad_request, internal_server_error, refused}

-- The catalog is asked for the asset of the name, to read it, with the credentials of the header.
-- `encode` is the JSON text of the request under `input`, with the metadata as its resource's, and
-- `post` gives the status and the body.
pub record ConnectorController (W : Type 0) : Type 0 where
  pub opa_server_url : String
  pub catalog_asset_info : String → String → Result GetAssetResponse
  pub encode : GetPolicyDecisionsRequest → ResourceMetadata → Result String
  pub post : W → String → String → W × Result (ℕ × Result String)
  pub decode : String → Result GetPolicyDecisionsResponse

-- `strings.TrimRight(s, "/")`
unfoldable pub trim_right : String → String
trim_right String.[] = ""
trim_right (String.◌∷◌ c s) =
    let rest = trim_right s in if nat_eq (code c) b'/' && rest == "" then "" else String.◌∷◌ c rest

unfoldable pub opa_endpoint : String → String
unfolding trim_right
opa_endpoint url = trim_right url <> "/" <> "v1/data/dataapi/authz/verdict"

module _ {W : Type 0} (r : ConnectorController W) where
  -- The body that is read from OPA's answer.
  unfoldable pub read_response : ℕ → Result String → Reply GetPolicyDecisionsResponse
  read_response status (err e) = refused internal_server_error e
  read_response status (ok body) =
      if nat_eq status 200
      then elim (r.decode body) [
        | err e ↦ refused internal_server_error e
        | ok response ↦ answered response
      ]
      else refused status body

  unfoldable pub opa_verdict : String → W → W × Reply GetPolicyDecisionsResponse
  unfolding read_response opa_endpoint
  opa_verdict body w =
      let (after, response) = r.post w (opa_endpoint r.opa_server_url) body in
      elim response [
        | err e ↦ (after, refused internal_server_error e)
        | ok (status, content) ↦ (after, read_response status content)
      ]

  -- The handler on a parsed request with its credentials, or the error of the parsing.
  unfoldable pub get_policies_decisions :
      Result GetPolicyDecisionsRequest → String → W → W × Reply GetPolicyDecisionsResponse
  unfolding opa_verdict
  get_policies_decisions (err e) credentials w = (w, refused bad_request e)
  get_policies_decisions (ok request) credentials w =
      elim (r.catalog_asset_info request.resource_id credentials) [
        | err e ↦ (w, refused internal_server_error e)
        | ok asset ↦ elim (r.encode request asset.resource_metadata) [
          | err e ↦ (w, refused internal_server_error e)
          | ok body ↦ opa_verdict body w
        ]
      ]
