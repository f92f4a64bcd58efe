-- ===== src/Policy/Tests.antt =====
-- The theorems about the policy manager's answers, at two answers.
use mesh_for_data.Base.{◌≡◌, refl, false, none, some, List, [], ◌∷◌, ok, map}
use mesh_for_data.Base.Json.{end}
use mesh_for_data.Api.Taxonomy.{Action, RequestAction, read}
use mesh_for_data.Api.Application.{FybrikApplication, unset}
use mesh_for_data.Policy.{
  GetPolicyDecisionsResponse, PolicyEnvironment, ResultItem, denial_message,
  lookup_policy_decisions,
}
use mesh_for_data.Policy.Decisions.{
  answer, any_denied, lookup_policy_decisions_denied, lookup_policy_decisions_granted,
}

abbrev item : Action → ResultItem
item a = record { policy = "p"; action = a }

abbrev redact : Action
redact = record { name = "RedactAction"; additional_properties = end }

abbrev deny : Action
deny = record { name = "Deny"; additional_properties = end }

abbrev answering : List ResultItem → PolicyEnvironment
answering items = record {
  get_policies_decisions = λ request creds. ok (record { decision_id = "1"; result = items });
  taxonomy_check = λ response. ok [];
  invalid_error = λ id violations. "invalid";
  vault_enabled = false;
  vault_address = "";
}

abbrev reading : RequestAction
reading = record { action_type = read; processing_location = "spain"; destination = "" }

abbrev application : FybrikApplication
application = record {
  name = "notebook";
  namespace = "default";
  uid = "u";
  generation = 1;
  deleted = false;
  finalizers = [];
  labels = [];
  spec = record {
    selector = record { cluster_name = ""; workload_selector_size = 1 };
    secret_ref = "creds";
    app_info = end;
    requested = [];
  };
  status = record {
    ready = false;
    error_message = "";
    asset_states = none;
    observed_generation = 0;
    validated_generation = 0;
    valid_application = unset;
    generated = none;
    provisioned_storage = none;
  };
}

lookup_policy_decisions_granted_example :
    (response : GetPolicyDecisionsResponse) × (answer
        (answering (item redact ∷ []))
        "a"
        application
        reading
      ≡ ok response)
    × ((answering (item redact ∷ [])).taxonomy_check response ≡ ok [])
    × (any_denied response.result ≡ false)
    × (redact ∷ [] ≡ map (λ (i : ResultItem). i.action) response.result)
unfolding lookup_policy_decisions
lookup_policy_decisions_granted_example =
    lookup_policy_decisions_granted (answering (item redact ∷ [])) "a" application reading
      (redact ∷ []) refl

lookup_policy_decisions_denied_example :
    (lookup_policy_decisions (answering (item redact ∷ item deny ∷ [])) "a" application reading).1
    ≡ some (denial_message read)
unfolding lookup_policy_decisions
lookup_policy_decisions_denied_example =
    lookup_policy_decisions_denied (answering (item redact ∷ item deny ∷ [])) "a" application
      reading (record { decision_id = "1"; result = item redact ∷ item deny ∷ [] }) refl refl refl
