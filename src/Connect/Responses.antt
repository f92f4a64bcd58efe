-- ===== src/Connect/Responses.antt =====
-- The conversions of responses in pkg/connectors/policymanager/clients/policymanager_grpc.go. `none` is
-- a panic; no error is returned, since the JSON texts in between are the code's own. The random
-- identifier of a decision is an argument.
use mesh_for_data.Base.{String, ◌==◌, if◌then◌else◌, Option, none, some, List, [], ◌∷◌, ◌++◌}
use mesh_for_data.Base.Json.{Fields, Items, Value, array, cons, end, field, get_field, nil, text}
use mesh_for_data.Base.Maps.{Map, get_or_zero, has, lookup}
use mesh_for_data.Api.Taxonomy.{Action}
use mesh_for_data.Policy.{GetPolicyDecisionsResponse, ResultItem}
use mesh_for_data.Connect.{
  AccessOperation, DatasetDecision, EnforcementAction, Level, OperationDecision, cell_level,
  column_level, dataset_level, equal_fold, row_level, as_text, unknown_level, unmarshal_action,
}

-- The enforcement actions and the used policies of a part of the response.
abbrev pub Part : Type 0
Part = List EnforcementAction × List String

abbrev pub join_parts : Option Part → Option Part → Option Part
join_parts none other = none
join_parts (some p) none = none
join_parts (some (xs, ps)) (some (ys, qs)) = some (xs ++ ys, ps ++ qs)

abbrev pub column_action : String → String → String → EnforcementAction
column_action name id column = record {
  name = name;
  id = id;
  level = column_level;
  args = ("column_name", column) ∷ [];
}

abbrev pub dataset_action : String → String → EnforcementAction
dataset_action name id = record { name = name; id = id; level = dataset_level; args = [] }

-- The texts of an array, each as it is asserted to be one.
abbrev pub cons_text : Option String → Option (List String) → Option (List String)
cons_text (some s) (some rest) = some (s ∷ rest)
cons_text _ _ = none

unfoldable pub texts_of : Items → Option (List String)
texts_of nil = some []
texts_of (cons v rest) = cons_text (as_text v) (texts_of rest)

-- The loop over the columns.
unfoldable pub for_columns : String → String → String → List String → Part
for_columns name id policy [] = ([], [])
for_columns name id policy (c ∷ rest) =
    let (actions, policies) = for_columns name id policy rest in
    (column_action name id c ∷ actions, policy ∷ policies)

abbrev pub for_texts : String → String → String → Option (List String) → Option Part
for_texts name id policy none = none
for_texts name id policy (some l) = some (for_columns name id policy l)

abbrev pub for_array : String → String → String → Option Value → Option Part
for_array name id policy (some (array items)) = for_texts name id policy (texts_of items)
for_array name id policy _ = some ([], [])

-- One action for each column in the properties, if these have an array of columns.
unfoldable pub column_actions : String → String → ResultItem → Option Part
unfolding for_columns texts_of get_field
column_actions name id item =
    for_array name id item.policy (get_field "columns" item.action.additional_properties)

-- One round of the loop over the items. The names exclude one another.
unfoldable pub convert_item : ResultItem → Option Part
unfolding equal_fold column_actions
convert_item item =
    if equal_fold "redact" item.action.name
    then column_actions "redact" "redact-ID" item
    else if equal_fold "remove" item.action.name
    then column_actions "removed" "removed-ID" item
    else if equal_fold "encrypt" item.action.name
    then column_actions "encrypted" "encrypted-ID" item
    else if equal_fold "deny" item.action.name
    then some (dataset_action "Deny" "Deny-ID" ∷ [], item.policy ∷ [])
    else if equal_fold "allow" item.action.name
    then some (dataset_action "Allow" "Allow-ID" ∷ [], [])
    else some ([], [])

unfoldable pub convert_items : List ResultItem → Option Part
unfolding convert_item
convert_items [] = some ([], [])
convert_items (item ∷ rest) = join_parts (convert_item item) (convert_items rest)

abbrev pub as_decisions : String → AccessOperation → Option Part → Option (List DatasetDecision)
as_decisions dataset_id op none = none
as_decisions dataset_id op (some (actions, policies)) = some (
    record {
      dataset_id = dataset_id;
      decisions =
          record { operation = op; enforcement_actions = actions; used_policies = policies } ∷ [];
    }
    ∷ [])

-- `ConvertOpenAPIRespToGrpcResp`
unfoldable pub convert_open_api_resp :
    GetPolicyDecisionsResponse → String → AccessOperation → Option (List DatasetDecision)
unfolding convert_items
convert_open_api_resp out dataset_id op = as_decisions dataset_id op (convert_items out.result)

-- The fields of a column's action: its name and one column, or none for another name.
unfoldable pub column_fields : String → Map String → Fields
unfolding lookup
column_fields name args =
    let named = get_or_zero "" "column_name" args in
    let column = if has "column_name" args then named else get_or_zero "" "column" args in
    let fields =
      λ (c : String). field "name" (text name) (field "columns" (array (cons (text c) nil)) end) in
    if name == "redact"
    then fields column
    else if name == "encrypt"
    then fields named
    else if name == "remove"
    then fields named
    else end

-- The zero value of an action, and that of a denial.
abbrev pub plain_action : String → Action
plain_action name = record { name = name; additional_properties = end }

-- The action of the result.
unfoldable pub enforced : Level → String → Map String → Option Action
unfolding column_fields unmarshal_action
enforced column_level name args = unmarshal_action (column_fields name args)
enforced dataset_level name args = some (plain_action (if name == "Deny" then "Deny" else ""))
enforced unknown_level name args = some (plain_action (if name == "Deny" then "Deny" else ""))
enforced row_level name args = some (plain_action "")
enforced cell_level name args = some (plain_action "")

-- The policy of the position, if there is one, and those behind it.
abbrev pub first_policy : List String → String
first_policy [] = ""
first_policy (p ∷ rest) = p

abbrev pub next_policies : List String → List String
next_policies [] = []
next_policies (p ∷ rest) = rest

abbrev pub cons_result :
    String → String → Option Action → Option (List ResultItem) → Option (List ResultItem)
cons_result name policy (some action) (some rest) =
    some (if name == "Allow" then rest else record { policy = policy; action = action } ∷ rest)
cons_result name policy _ _ = none

-- The loop over the enforcement actions, with the policies from the same position on.
unfoldable pub convert_actions : List EnforcementAction → List String → Option (List ResultItem)
unfolding enforced
convert_actions [] policies = some []
convert_actions (e ∷ rest) policies =
    cons_result e.name (first_policy policies) (enforced e.level e.name e.args)
      (convert_actions rest (next_policies policies))

abbrev pub append_results :
    Option (List ResultItem) → Option (List ResultItem) → Option (List ResultItem)
append_results (some xs) (some ys) = some (xs ++ ys)
append_results _ _ = none

unfoldable pub convert_operations : List OperationDecision → Option (List ResultItem)
unfolding convert_actions
convert_operations [] = some []
convert_operations (d ∷ rest) =
    append_results (convert_actions d.enforcement_actions d.used_policies) (convert_operations rest)

unfoldable pub convert_datasets : List DatasetDecision → Option (List ResultItem)
unfolding convert_operations
convert_datasets [] = some []
convert_datasets (d ∷ rest) =
    append_results (convert_operations d.decisions) (convert_datasets rest)

abbrev pub with_decision_id : String → Option (List ResultItem) → Option GetPolicyDecisionsResponse
with_decision_id id none = none
with_decision_id id (some result) = some (record { decision_id = id; result = result })

-- `ConvertGrpcRespToOpenAPIResp`
unfoldable pub convert_grpc_resp : String → List DatasetDecision → Option GetPolicyDecisionsResponse
unfolding convert_datasets
convert_grpc_resp id decisions = with_decision_id id (convert_datasets decisions)
