-- ===== src/Connect/Client.antt =====
-- `GetPoliciesDecisions` of pkg/connectors/policymanager/clients/policymanager_grpc.go. The client of the
-- generated service is a parameter.
use mesh_for_data.Base.{String, Option, none, some, List, Result, ok, err}
use mesh_for_data.Policy.{GetPolicyDecisionsRequest, GetPolicyDecisionsResponse}
use mesh_for_data.Connect.{ApplicationContext, DatasetDecision}
use mesh_for_data.Connect.Requests.{convert_open_api_req}
use mesh_for_data.Connect.Responses.{convert_grpc_resp}

abbrev pub replied : Option GetPolicyDecisionsResponse → Option (Result GetPolicyDecisionsResponse)
replied none = none
replied (some response) = some (ok response)

-- The random identifier is an argument, and `none` is a panic.
unfoldable pub get_policies_decisions :
    (ApplicationContext → Result (List DatasetDecision))
    → String
    → GetPolicyDecisionsRequest
    → String
    → Option (Result GetPolicyDecisionsResponse)
unfolding convert_open_api_req convert_grpc_resp
get_policies_decisions client id request creds =
    elim (client (convert_open_api_req request creds)) [
      | err e ↦ some (err e)
      | ok decisions ↦ replied (convert_grpc_resp id decisions)
    ]
