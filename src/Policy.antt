-- ===== src/Policy.antt =====
-- manager/controllers/app/policy_compiler_interface.go: asking the policy manager for the
-- governance actions of an operation. The policy manager, the JSON schema check and the
-- environment variables are parameters.
pub mod Decisions
mod Tests
use mesh_for_data.Base.{
  String, ◌==◌, ◌<>◌, if◌then◌else◌, Bool, Option, none, some, List, [], ◌∷◌, ◌++◌, Result, ok, err,
}
use mesh_for_data.Api.Taxonomy.{
  Action, ActionName, Properties, RequestAction, RequestActionType, read, write, delete,
}
use mesh_for_data.Api.Application.{FybrikApplication}

-- pkg/model/policymanager. The resource metadata of a request is always empty, and left out.
pub record GetPolicyDecisionsRequest : Type 0 where
  pub context : Properties
  pub action : RequestAction
  pub resource_id : String

pub record ResultItem : Type 0 where
  pub policy : String
  pub action : Action

pub record GetPolicyDecisionsResponse : Type 0 where
  pub decision_id : String
  pub result : List ResultItem

-- What the program is given: the policy manager's client, the taxonomy check of a response, which
-- gives the violations or an error of its own, the text of the Kubernetes error over violations,
-- and the configuration of Vault.
pub record PolicyEnvironment : Type 0 where
  pub get_policies_decisions :
      GetPolicyDecisionsRequest → String → Result GetPolicyDecisionsResponse
  pub taxonomy_check : GetPolicyDecisionsResponse → Result (List String)
  pub invalid_error : String → List String → String
  pub vault_enabled : Bool
  pub vault_address : String

abbrev pub read_access_denied : String
read_access_denied = "governance policies forbid access to the data"

abbrev pub write_not_allowed : String
write_not_allowed = "governance policies forbid writing of the data"

unfoldable pub is_denied : ActionName → Bool
is_denied action_name = action_name == "Deny"

-- pkg/vault/vault_paths.go
unfoldable pub path_for_reading_kube_secret : String → String → String
path_for_reading_kube_secret secret_namespace secret_name =
    "/v1/" <> "kubernetes-secrets" <> "/" <> secret_name <> "?namespace=" <> secret_namespace

unfoldable pub construct_open_api_req :
    String → FybrikApplication → RequestAction → GetPolicyDecisionsRequest
construct_open_api_req dataset_id input operation = record {
  context = input.spec.app_info;
  action = operation;
  resource_id = dataset_id;
}

-- `none` is a nil error.
unfoldable pub validate_policy_decisions_response :
    PolicyEnvironment → GetPolicyDecisionsResponse → Option String
validate_policy_decisions_response env response = elim (env.taxonomy_check response) [
  | err e ↦ some e
  | ok [] ↦ none
  | ok (v ∷ vs) ↦ some (env.invalid_error response.decision_id (v ∷ vs))
]

-- The path of the secret with the credentials of the request, empty without a secret or Vault.
unfoldable pub credentials_path : PolicyEnvironment → FybrikApplication → String
unfolding path_for_reading_kube_secret
credentials_path env application =
    if application.spec.secret_ref == ""
    then ""
    else if env.vault_enabled
    then env.vault_address
      <> path_for_reading_kube_secret application.namespace application.spec.secret_ref
    else ""

-- The message of a denial. No message is set for `delete`.
unfoldable pub denial_message : RequestActionType → String
denial_message read = read_access_denied
denial_message write = write_not_allowed
denial_message delete = ""

-- The loop over the items of the response. A denial ends it, with the actions met so far.
unfoldable pub collect_actions :
    RequestActionType → List Action → List ResultItem → List Action × Option String
unfolding is_denied denial_message
collect_actions type actions [] = (actions, none)
collect_actions type actions (item ∷ rest) =
    let (all, e) = collect_actions type (actions ++ item.action ∷ []) rest in
    if is_denied item.action.name then (actions, some (denial_message type)) else (all, e)

check_response :
    PolicyEnvironment → RequestActionType → GetPolicyDecisionsResponse → List Action × Option String
unfolding validate_policy_decisions_response collect_actions
check_response env type response = elim (validate_policy_decisions_response env response) [
  | some e ↦ ([], some ("Validation error: " <> e))
  | none ↦ collect_actions type [] response.result
]

-- The actions and the error, both, as the function returns both.
unfoldable pub lookup_policy_decisions :
    PolicyEnvironment → String → FybrikApplication → RequestAction → List Action × Option String
unfolding construct_open_api_req credentials_path check_response
lookup_policy_decisions env dataset_id application op =
    let request = construct_open_api_req dataset_id application op in
    elim (env.get_policies_decisions request (credentials_path env application)) [
      | err e ↦ ([], some e)
      | ok response ↦ check_response env op.action_type response
    ]
