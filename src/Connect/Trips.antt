-- ===== src/Connect/Trips.antt =====
-- A response through both conversions of Connect/Responses.antt.
use mesh_for_data.Base.{String, ◌≡◌, refl, some, List, [], ◌∷◌, ◌++◌}
use mathlib.Core.List.{append-nil}
use mesh_for_data.Base.Json.{Items, array, cons, end, field, get_field, nil, text}
use mesh_for_data.Base.Maps.{lookup}
use mesh_for_data.Policy.{ResultItem}
use mesh_for_data.Connect.{
  AccessOperation, DatasetDecision, EnforcementAction, equal_fold, unmarshal_action, get_text,
  delete_field,
}
use mesh_for_data.Connect.Responses.{
  dataset_action, convert_actions, convert_datasets, convert_grpc_resp, convert_item, convert_items,
  convert_open_api_resp, convert_operations, enforced, column_actions, column_fields, for_columns,
  texts_of,
}

-- What a policy manager decides: a denial, or columns to redact, by a policy.
pub data Ruling : Type 0 where
  denial : String → Ruling
  redaction : String → List String → Ruling

unfoldable pub texts : List String → Items
texts [] = nil
texts (c ∷ rest) = cons (text c) (texts rest)

unfoldable pub item_of : Ruling → ResultItem
unfolding texts
item_of (denial policy) = record {
  policy = policy;
  action = record { name = "Deny"; additional_properties = end };
}
item_of (redaction policy columns) = record {
  policy = policy;
  action = record {
    name = "redact";
    additional_properties = field "columns" (array (texts columns)) end;
  };
}

-- One redaction for each column.
abbrev pub one_by_one : String → List String → List ResultItem
one_by_one policy [] = []
one_by_one policy (c ∷ rest) = item_of (redaction policy (c ∷ [])) ∷ one_by_one policy rest

abbrev pub items_of : List Ruling → List ResultItem
items_of [] = []
items_of (r ∷ rest) = item_of r ∷ items_of rest

abbrev pub split : List Ruling → List ResultItem
split [] = []
split (denial policy ∷ rest) = item_of (denial policy) ∷ split rest
split (redaction policy columns ∷ rest) = one_by_one policy columns ++ split rest

texts_of-texts : (l : List String) → texts_of (texts l) ≡ some l
unfolding texts_of texts
texts_of-texts [] = refl
texts_of-texts (c ∷ rest) = rw (texts_of-texts rest) refl

-- The actions for columns come back one by one.
convert_actions-for_columns :
    (policy : String) (columns : List String) (actions : List EnforcementAction)
    (policies : List String) (l : List ResultItem)
    → convert_actions actions policies ≡ some l
    → convert_actions
        ((for_columns "redact" "redact-ID" policy columns).0 ++ actions)
        ((for_columns "redact" "redact-ID" policy columns).1 ++ policies)
      ≡ some (one_by_one policy columns ++ l)
unfolding for_columns convert_actions enforced column_fields unmarshal_action lookup item_of texts
    get_text get_field delete_field
convert_actions-for_columns policy [] actions policies l h = h
convert_actions-for_columns policy (c ∷ rest) actions policies l h =
    rw (convert_actions-for_columns policy rest actions policies l h) refl

convert_actions-convert_items :
    (l : List Ruling)
    → (actions : List EnforcementAction) × (policies : List String) × (convert_items (items_of l)
        ≡ some (actions, policies))
      × (convert_actions actions policies ≡ some (split l))
unfolding convert_items convert_item convert_actions enforced equal_fold item_of column_actions
    get_field
convert_actions-convert_items [] = ([], [], refl, refl)
convert_actions-convert_items (denial policy ∷ rest) =
    let (actions, policies, there, back) = convert_actions-convert_items rest in
    (dataset_action "Deny" "Deny-ID" ∷ actions, policy ∷ policies, rw there refl, rw back refl)
convert_actions-convert_items (redaction policy columns ∷ rest) =
    let (actions, policies, there, back) = convert_actions-convert_items rest in
    let part = for_columns "redact" "redact-ID" policy columns in
    (
      part.0 ++ actions,
      part.1 ++ policies,
      rw (there, texts_of-texts columns) refl,
      convert_actions-for_columns policy columns actions policies (split rest) back,
    )

-- A response whose items are denials and redactions of columns is converted to messages without a
-- failure, and these are converted back to one item for each denial and each column, in order, with
-- the policies.
pub convert_grpc_resp-convert_open_api_resp :
    (l : List Ruling) (old_id new_id dataset_id : String) (op : AccessOperation)
    → (decisions : List DatasetDecision) × (convert_open_api_resp
          (record { decision_id = old_id; result = items_of l })
          dataset_id
          op
        ≡ some decisions)
      × (convert_grpc_resp new_id decisions
          ≡ some (record { decision_id = new_id; result = split l }))
unfolding convert_open_api_resp convert_grpc_resp convert_datasets convert_operations
convert_grpc_resp-convert_open_api_resp l old_id new_id dataset_id op =
    let (actions, policies, there, back) = convert_actions-convert_items l in
    (
      record {
        dataset_id = dataset_id;
        decisions =
            record { operation = op; enforcement_actions = actions; used_policies = policies } ∷ [];
      }
          ∷ [],
      rw there refl,
      rw (back, append-nil, append-nil) refl,
    )
