-- ===== src/Servers/Granted.antt =====
-- Which decisions the server of Servers/Opa gives.
use mesh_for_data.Base.{
  String, ℕ, nat_eq, ◌≡◌, refl, ap, sym, arith, Bool-cases, inl, inr, Result, Result-cases, ok, err,
}
use mesh_for_data.Api.Taxonomy.{GetAssetResponse}
use mesh_for_data.Policy.{GetPolicyDecisionsRequest, GetPolicyDecisionsResponse}
use mesh_for_data.Servers.{answered}
use mesh_for_data.Servers.Opa.{
  ConnectorController, opa_endpoint, get_policies_decisions, opa_verdict, read_response,
}

module _ {W : Type 0} (r : ConnectorController W) where
  read_response_granted :
      (status : ℕ) (content : Result String) (response : GetPolicyDecisionsResponse)
      → read_response r status content ≡ answered response
      → (text : String) × (status ≡ 200) × (content ≡ ok text) × (r.decode text ≡ ok response)
  unfolding read_response
  read_response_granted status (err e) response run = cc
  read_response_granted status (ok text) response run = elim (Bool-cases (nat_eq status 200)) [
    | inr other ↦ let wrong = rw other at run in cc
    | inl same ↦ elim (Result-cases (r.decode text)) [
      | inr (e, failed) ↦ let wrong = rw (same, failed) at run in cc
      | inl (d, decoded) ↦ let given = rw (same, decoded) at run in (text, ground arith, refl, cc)
    ]
  ]

  -- OPA was asked with the body, and its answer, of status 200, is decoded to the response.
  abbrev pub IsAnswered : W → W → String → GetPolicyDecisionsResponse → Type 0
  IsAnswered w after body response =
      (text : String) × (r.post w (opa_endpoint r.opa_server_url) body ≡ (after, ok (200, ok text)))
      × (r.decode text ≡ ok response)

  opa_verdict_granted :
      (body : String) (w after : W) (response : GetPolicyDecisionsResponse)
      → opa_verdict r body w ≡ (after, answered response)
      → IsAnswered w after body response
  unfolding opa_verdict
  opa_verdict_granted body w after response run =
      let reply = r.post w (opa_endpoint r.opa_server_url) body in
      elim (Result-cases reply.1) [
        | inr (e, failed) ↦ let wrong = rw (opa_verdict, failed) at run in cc
        | inl ((status, content), answer) ↦
            let moved = rw (opa_verdict, answer) at run in
            let (text, same, full, decoded) =
              read_response_granted status content response (ap (λ x. x.1) moved) in
            (text, rw (sym same, sym full) (cc), decoded)
      ]

  -- The request was parsed, the catalog has its asset, and OPA's answer to the request with the
  -- metadata of the asset is decoded to the response.
  abbrev pub IsDecided :
      Result GetPolicyDecisionsRequest → String → W → W → GetPolicyDecisionsResponse → Type 0
  IsDecided request credentials w after response =
      (q : GetPolicyDecisionsRequest) × (asset : GetAssetResponse) × (body : String) × (request
        ≡ ok q)
      × (r.catalog_asset_info q.resource_id credentials ≡ ok asset)
      × (r.encode q asset.resource_metadata ≡ ok body)
      × IsAnswered w after body response

  -- The server gives a decision only if the request was parsed, the catalog has the asset of the
  -- request for its credentials, and OPA answered the request that holds the metadata of that asset
  -- with the status 200 and a text that is decoded to the decision.
  pub get_policies_decisions-IsDecided :
      (request : Result GetPolicyDecisionsRequest) (credentials : String) (w after : W)
      (response : GetPolicyDecisionsResponse)
      → get_policies_decisions r request credentials w ≡ (after, answered response)
      → IsDecided request credentials w after response
  unfolding get_policies_decisions
  get_policies_decisions-IsDecided (err e) credentials w after response run = cc
  get_policies_decisions-IsDecided (ok q) credentials w after response run =
      elim (Result-cases (r.catalog_asset_info q.resource_id credentials)) [
        | inr (e, failed) ↦ let wrong = rw (get_policies_decisions, failed) at run in cc
        | inl (asset, found) ↦ elim (Result-cases (r.encode q asset.resource_metadata)) [
          | inr (e, failed) ↦ let wrong = rw (get_policies_decisions, found, failed) at run in cc
          | inl (body, encoded) ↦
              let asked = rw (get_policies_decisions, found, encoded) at run in
              (
                q,
                asset,
                body,
                refl,
                found,
                encoded,
                opa_verdict_granted body w after response asked,
              )
        ]
      ]
