-- ===== src/Policy/Decisions.antt =====
-- What `lookup_policy_decisions` of Policy.antt returns on each answer of the policy manager.
use mesh_for_data.Base.{
  String, ◌≡◌, refl, Bool, true, false, ◌||◌, none, some, List, [], ◌∷◌, ◌++◌, map, Result, ok, err,
  arith, Bool-cases, inl, inr,
}
use mathlib.Core.List.{append_assoc, append-nil}
use mesh_for_data.Api.Taxonomy.{Action, RequestAction, RequestActionType}
use mesh_for_data.Api.Application.{FybrikApplication}
use mesh_for_data.Policy.{
  GetPolicyDecisionsResponse, PolicyEnvironment, ResultItem, is_denied, denial_message,
  check_response, collect_actions, credentials_path, construct_open_api_req,
  lookup_policy_decisions, validate_policy_decisions_response,
}

-- Some item of the response denies the operation.
abbrev pub any_denied : List ResultItem → Bool
any_denied [] = false
any_denied (item ∷ rest) = is_denied item.action.name || any_denied rest

collect_actions-allowed :
    (type : RequestActionType) (acc : List Action) (items : List ResultItem)
    → any_denied items ≡ false
    → collect_actions type acc items ≡ (acc ++ map (λ i. i.action) items, none)
unfolding collect_actions
collect_actions-allowed type acc [] h = rw append-nil
collect_actions-allowed type acc (item ∷ rest) h = ground (
  arith,
  collect_actions-allowed type (acc ++ item.action ∷ []) rest,
  append_assoc acc (item.action ∷ []) (map (λ (i : ResultItem). i.action) rest),
)

collect_actions-denied :
    (type : RequestActionType) (acc : List Action) (items : List ResultItem)
    → any_denied items ≡ true
    → (collect_actions type acc items).1 ≡ some (denial_message type)
unfolding collect_actions
collect_actions-denied type acc [] h = ground arith
collect_actions-denied type acc (item ∷ rest) h =
    ground (arith, collect_actions-denied type (acc ++ item.action ∷ []) rest)

validate_policy_decisions_response-none :
    (env : PolicyEnvironment) (response : GetPolicyDecisionsResponse)
    → validate_policy_decisions_response env response ≡ none
    → env.taxonomy_check response ≡ ok []
unfolding validate_policy_decisions_response
validate_policy_decisions_response-none env response h = ground arith

check_response_granted :
    (env : PolicyEnvironment) (type : RequestActionType) (response : GetPolicyDecisionsResponse)
    (actions : List Action)
    → check_response env type response ≡ (actions, none)
    → (env.taxonomy_check response ≡ ok [])
      × (any_denied response.result ≡ false)
      × (actions ≡ map (λ i. i.action) response.result)
unfolding check_response
check_response_granted env type response actions h =
    elim (Bool-cases (any_denied response.result)) [
      | inl d ↦ ground (
        arith,
        validate_policy_decisions_response-none env response,
        collect_actions-denied type [] response.result,
      )
      | inr d ↦ ground (
        arith,
        validate_policy_decisions_response-none env response,
        collect_actions-allowed type [] response.result,
      )
    ]

module _ (env : PolicyEnvironment) (dataset_id : String) (application : FybrikApplication)
    (op : RequestAction) where
  -- What the policy manager says to the request of the operation.
  abbrev pub answer : Result GetPolicyDecisionsResponse
  answer =
      env.get_policies_decisions (construct_open_api_req dataset_id application op)
        (credentials_path env application)

  -- Actions are granted, with no error, only if the policy manager answered, the answer passed the
  -- taxonomy check without a violation, and no item of it is a denial; and then they are the
  -- actions of all its items, in order.
  pub lookup_policy_decisions_granted :
      (actions : List Action)
      → lookup_policy_decisions env dataset_id application op ≡ (actions, none)
      → (response : GetPolicyDecisionsResponse) × (answer ≡ ok response)
        × (env.taxonomy_check response ≡ ok [])
        × (any_denied response.result ≡ false)
        × (actions ≡ map (λ i. i.action) response.result)
  unfolding lookup_policy_decisions
  lookup_policy_decisions_granted actions h = go answer refl
    where
      go :
          (r : Result GetPolicyDecisionsResponse)
          → answer ≡ r
          → (response : GetPolicyDecisionsResponse) × (answer ≡ ok response)
            × (env.taxonomy_check response ≡ ok [])
            × (any_denied response.result ≡ false)
            × (actions ≡ map (λ i. i.action) response.result)
      go (err e) a = cc
      go (ok response) a =
          let (checked, allowed, all) =
            check_response_granted env op.action_type response actions (cc) in
          (response, a, checked, allowed, all)

  -- An answer that passes the check and holds a denial gives the error of the operation, whatever
  -- the other items are.
  pub lookup_policy_decisions_denied :
      (response : GetPolicyDecisionsResponse)
      → answer ≡ ok response
      → env.taxonomy_check response ≡ ok []
      → any_denied response.result ≡ true
      → (lookup_policy_decisions env dataset_id application op).1
        ≡ some (denial_message op.action_type)
  unfolding lookup_policy_decisions
  lookup_policy_decisions_denied response h k d =
      ground (arith, collect_actions-denied op.action_type [] response.result)
