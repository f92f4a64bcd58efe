-- ===== src/Connect/Requests.antt =====
-- The conversions of requests in pkg/connectors/policymanager/clients/policymanager_grpc.go.
use mesh_for_data.Base.{String, Option, none, some, List, [], ◌∷◌}
use mesh_for_data.Base.Json.{end, field, text}
use mesh_for_data.Base.Maps.{Map, get_or_zero, insert, lookup}
use mesh_for_data.Api.Taxonomy.{Properties, RequestActionType, delete, read, write}
use mesh_for_data.Policy.{GetPolicyDecisionsRequest}
use mesh_for_data.Connect.{
  AccessType, ApplicationContext, DatasetContext, copy_access, get_text, read_access,
  unknown_access, write_access,
}

abbrev pub access_type_of : RequestActionType → AccessType
access_type_of read = read_access
access_type_of write = write_access
access_type_of delete = read_access

-- The property, if it is a text.
unfoldable pub with_property : String → Properties → Map String → Map String
unfolding get_text insert
with_property key context m = elim (get_text key context) [ none ↦ m | some s ↦ insert key s m ]

-- `ConvertOpenAPIReqToGrpcReq`
unfoldable pub convert_open_api_req : GetPolicyDecisionsRequest → String → ApplicationContext
unfolding with_property
convert_open_api_req request creds = record {
  credential_path = creds;
  processing_geography = request.action.processing_location;
  properties = with_property "role" request.context (with_property "intent" request.context []);
  datasets =
      record {
        dataset_id = request.resource_id;
        operation = record {
          type = access_type_of request.action.action_type;
          destination = request.action.destination;
        };
      }
      ∷ [];
}

-- The request that is built, with `none` for an action type that is not set.
pub record ConvertedRequest : Type 0 where
  pub context : Properties
  pub action_type : Option RequestActionType
  pub processing_location : String
  pub destination : String
  pub resource_id : String

abbrev pub set_type : AccessType → Option RequestActionType → Option RequestActionType
set_type read_access old = some read
set_type write_access old = some write
set_type unknown_access old = old
set_type copy_access old = old

-- The loop over the datasets.
unfoldable pub read_datasets : List DatasetContext → ConvertedRequest → ConvertedRequest
read_datasets [] request = request
read_datasets (d ∷ rest) request = read_datasets rest (record request {
  action_type = set_type d.operation.type request.action_type;
  destination = d.operation.destination;
  resource_id = d.dataset_id;
})

-- `ConvertGrpcReqToOpenAPIReq`: the request and the credentials.
unfoldable pub convert_grpc_req : ApplicationContext → ConvertedRequest × String
unfolding read_datasets lookup
convert_grpc_req application =
    let property = λ (key : String). text (get_or_zero "" key application.properties) in
    let blank : ConvertedRequest = record {
      context = field "intent" (property "intent") (field "role" (property "role") end);
      action_type = none;
      processing_location = application.processing_geography;
      destination = "";
      resource_id = "";
    } in
    (read_datasets application.datasets blank, application.credential_path)
