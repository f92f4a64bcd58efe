-- ===== src/Connect/Tests.antt =====
-- The theorems of Connect at a response with a denial and a redaction, and at one with a removal.
use mesh_for_data.Base.{true, ◌≡◌, refl, inl, none, some, List, [], ◌∷◌, Memᴰ}
use mesh_for_data.Base.Json.{array, cons, end, field, get_field, nil, text}
use mesh_for_data.Api.Taxonomy.{delete, read}
use mesh_for_data.Policy.{GetPolicyDecisionsRequest, GetPolicyDecisionsResponse, ResultItem}
use mesh_for_data.Connect.{AccessOperation, DatasetDecision, column_level, equal_fold, read_access}
use mesh_for_data.Connect.Catalog.{failed, get_asset_info}
use mesh_for_data.Connect.Crashes.{convert_grpc_resp-convert_open_api_resp_panics}
use mesh_for_data.Connect.Requests.{convert_grpc_req, convert_open_api_req}
use mesh_for_data.Connect.Responses.{convert_grpc_resp, convert_open_api_resp}
use mesh_for_data.Connect.Trips.{
  Ruling, convert_grpc_resp-convert_open_api_resp, denial, items_of, redaction, split,
}

abbrev reading : AccessOperation
reading = record { type = read_access; destination = "" }

abbrev rulings : List Ruling
rulings = redaction "names are private" ("first" ∷ "last" ∷ []) ∷ denial "closed" ∷ []

convert_grpc_resp-convert_open_api_resp_example :
    (decisions : List DatasetDecision) × (convert_open_api_resp
        (record { decision_id = "1"; result = items_of rulings })
        "asset"
        reading
      ≡ some decisions)
    × (convert_grpc_resp "2" decisions
        ≡ some (record { decision_id = "2"; result = split rulings }))
convert_grpc_resp-convert_open_api_resp_example =
    convert_grpc_resp-convert_open_api_resp rulings "1" "2" "asset" reading

abbrev removal : ResultItem
removal = record {
  policy = "no ages";
  action = record {
    name = "remove";
    additional_properties = field "columns" (array (cons (text "age") nil)) end;
  };
}

abbrev removals : GetPolicyDecisionsResponse
removals = record { decision_id = "1"; result = removal ∷ [] }

abbrev removals_sent : List DatasetDecision
removals_sent =
    record {
      dataset_id = "asset";
      decisions =
          record {
            operation = reading;
            enforcement_actions =
                record {
                  name = "removed";
                  id = "removed-ID";
                  level = column_level;
                  args = ("column_name", "age") ∷ [];
                }
                ∷ [];
            used_policies = "no ages" ∷ [];
          }
          ∷ [];
    }
    ∷ []

removals_there : convert_open_api_resp removals "asset" reading ≡ some removals_sent
unfolding convert_open_api_resp
removals_there = refl

columns_there :
    get_field "columns" removal.action.additional_properties ≡ some (array (cons (text "age") nil))
unfolding get_field
columns_there = refl

convert_grpc_resp-convert_open_api_resp_panics_example : convert_grpc_resp "2" removals_sent ≡ none
convert_grpc_resp-convert_open_api_resp_panics_example =
    convert_grpc_resp-convert_open_api_resp_panics removals removal "2" "asset" reading
      removals_sent (Memᴰ.head refl) (inl refl, (text "age", nil, columns_there)) removals_there

-- The policy of a denial is lost behind an item that allows.
abbrev allowed : ResultItem
allowed = record { policy = ""; action = record { name = "Allow"; additional_properties = end } }

abbrev denied : ResultItem
denied = record {
  policy = "closed";
  action = record { name = "Deny"; additional_properties = end };
}

policy_lost :
    (decisions : List DatasetDecision) × (convert_open_api_resp
        (record { decision_id = "1"; result = allowed ∷ denied ∷ [] })
        "asset"
        reading
      ≡ some decisions)
    × (convert_grpc_resp "2" decisions
        ≡ some (record { decision_id = "2"; result = record denied { policy = "" } ∷ [] }))
unfolding convert_open_api_resp convert_grpc_resp
policy_lost = (_, refl, refl)

-- A question about a deletion is asked as one about reading.
abbrev deletion : GetPolicyDecisionsRequest
deletion = record {
  context = field "intent" (text "audit") end;
  action = record { action_type = delete; processing_location = "north"; destination = "" };
  resource_id = "asset";
}

deletion_as_read :
    (convert_grpc_req (convert_open_api_req deletion "path")).0.action_type ≡ some read
unfolding convert_grpc_req convert_open_api_req
deletion_as_read = refl

context_kept :
    (convert_grpc_req (convert_open_api_req deletion "path")).0.context
    ≡ field "intent" (text "audit") (field "role" (text "") end)
unfolding convert_grpc_req convert_open_api_req
context_kept = refl

equal_folds : equal_fold "redact" "ReDact" ≡ true
unfolding equal_fold
equal_folds = refl

asset_info_panics : get_asset_info (λ creds asset_id. failed "not reachable") "asset" "path" ≡ none
unfolding get_asset_info
asset_info_panics = refl
