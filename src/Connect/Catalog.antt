-- ===== src/Connect/Catalog.antt =====
-- pkg/connectors/datacatalog/clients/datacatalog_grpc.go: the question to the data catalog and the
-- conversion of its answer. The client of the generated service is a parameter. `none` is the panic on
-- a message that is not there.
use mesh_for_data.Base.{
  String, ◌==◌, if◌then◌else◌, true, Option, none, some, List, [], ◌∷◌, Result, ok, err,
}
use mesh_for_data.Base.Json.{Fields, Value, bool, end, field, null, object, set_field, text}
use mesh_for_data.Base.Maps.{Map}
use mesh_for_data.Api.Taxonomy.{Connection, GetAssetResponse, ResourceColumn}

pub record S3DataStore : Type 0 where
  pub endpoint : String
  pub bucket : String
  pub object_key : String
  pub region : String

pub record Db2DataStore : Type 0 where
  pub url : String
  pub database : String
  pub table : String
  pub port : String
  pub ssl : String

pub record KafkaDataStore : Type 0 where
  pub topic_name : String
  pub bootstrap_servers : String
  pub schema_registry : String
  pub key_deserializer : String
  pub value_deserializer : String
  pub security_protocol : String
  pub sasl_mechanism : String
  pub ssl_truststore : String
  pub ssl_truststore_password : String

pub data StoreType : Type 0 where
  unknown_store local_store s3_store db2_store kafka_store : StoreType

pub record StoreMessage : Type 0 where
  pub type : StoreType
  pub db2 : Option Db2DataStore
  pub s3 : Option S3DataStore
  pub kafka : Option KafkaDataStore

-- The metadata of a component is its tags, where it is not nil.
pub record MetadataMessage : Type 0 where
  pub dataset_tags : List String
  pub components_metadata : Map (Option (List String))

pub record DetailsMessage : Type 0 where
  pub name : String
  pub data_owner : String
  pub data_store : Option StoreMessage
  pub data_format : String
  pub geo : String
  pub metadata : Option MetadataMessage
  pub vault_secret_path : Option String

-- A field with `omitempty`.
abbrev pub unless_empty : String → String → Fields → Fields
unless_empty key s rest = if s == "" then rest else field key (text s) rest

-- The stores through JSON and back.
unfoldable pub s3_value : Option S3DataStore → Value
s3_value none = null
s3_value (some d) = object (
    unless_empty "endpoint" d.endpoint (
      unless_empty "bucket" d.bucket
        (unless_empty "object_key" d.object_key (unless_empty "region" d.region end))))

unfoldable pub db2_value : Option Db2DataStore → Value
db2_value none = null
db2_value (some d) = object (
    unless_empty "url" d.url (
      unless_empty "database" d.database
        (unless_empty "table" d.table (unless_empty "port" d.port (unless_empty "ssl" d.ssl end)))))

unfoldable pub kafka_value : Option KafkaDataStore → Value
kafka_value none = null
kafka_value (some d) = object (
    unless_empty "topic_name" d.topic_name (
      unless_empty "bootstrap_servers" d.bootstrap_servers (
        unless_empty "schema_registry" d.schema_registry (
          unless_empty "key_deserializer" d.key_deserializer (
            unless_empty "value_deserializer" d.value_deserializer (
              unless_empty "security_protocol" d.security_protocol (
                unless_empty "sasl_mechanism" d.sasl_mechanism (
                  unless_empty "ssl_truststore" d.ssl_truststore
                    (unless_empty "ssl_truststore_password" d.ssl_truststore_password end)))))))))

abbrev pub named_connection : String → Value → Connection
named_connection name v = record { name = name; additional_properties = field name v end }

unfoldable pub connection_of : StoreMessage → Connection
unfolding s3_value db2_value kafka_value
connection_of store = elim (store.type) [
  | s3_store ↦ named_connection "s3" (s3_value store.s3)
  | kafka_store ↦ named_connection "kafka" (kafka_value store.kafka)
  | db2_store ↦ named_connection "db2" (db2_value store.db2)
  | _ ↦ record { name = "local"; additional_properties = end }
]

-- The loop over tags.
unfoldable pub tag_all : List String → Fields → Fields
unfolding set_field
tag_all [] items = items
tag_all (tag ∷ rest) items = tag_all rest (set_field tag (bool true) items)

-- The loop over the components, with those that are nil left out.
unfoldable pub columns_of : Map (Option (List String)) → List ResourceColumn
unfolding tag_all
columns_of [] = []
columns_of ((name, none) ∷ rest) = columns_of rest
columns_of ((name, some tags) ∷ rest) =
    record { name = name; tags = some (tag_all tags end) } ∷ columns_of rest

-- The response of a message all of whose parts are there.
unfoldable pub response_of :
    DetailsMessage → MetadataMessage → StoreMessage → String → GetAssetResponse
unfolding tag_all columns_of connection_of
response_of d metadata store secret = record {
  resource_metadata = record {
    name = d.name;
    owner = d.data_owner;
    geography = d.geo;
    tags = some (tag_all metadata.dataset_tags end);
    columns = columns_of metadata.components_metadata;
  };
  details = record { connection = connection_of store; data_format = d.data_format };
  credentials = secret;
}

-- `ConvertDataCatalogGrpcRespToOpenAPIResp` on the details of the message.
unfoldable pub convert_catalog_resp : Option DetailsMessage → Option GetAssetResponse
unfolding response_of
convert_catalog_resp none = none
convert_catalog_resp (some d) = elim (d.metadata) [
  | none ↦ none
  | some metadata ↦ elim (d.data_store) [
    | none ↦ none
    | some store ↦ elim (d.vault_secret_path) [
      | none ↦ none
      | some secret ↦ some (response_of d metadata store secret)
    ]
  ]
]

-- The answer of the client: a message, the code InvalidArgument, or another error with a nil message.
pub data Answer : Type 0 where
  answered : Option DetailsMessage → Answer
  invalid_argument : Answer
  failed : String → Answer

abbrev pub returned : Option GetAssetResponse → Option (Result GetAssetResponse)
returned none = none
returned (some response) = some (ok response)

-- `GetAssetInfo`. The client gets the credentials and the identifier of the asset.
unfoldable pub get_asset_info :
    (String → String → Answer) → String → String → Option (Result GetAssetResponse)
unfolding convert_catalog_resp
get_asset_info client asset_id creds = elim (client creds asset_id) [
  | answered d ↦ returned (convert_catalog_resp d)
  | invalid_argument ↦ some (err "the asset does not exist")
  | failed e ↦ returned (convert_catalog_resp none)
]
