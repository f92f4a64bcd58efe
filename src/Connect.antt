-- ===== src/Connect.antt =====
-- The messages of pkg/connectors/protos, and what the conversions of the gRPC clients in
-- pkg/connectors share. A getter of a nil message gives zero values, so a nil message is one of these.
pub mod Requests
pub mod Responses
pub mod Catalog
pub mod Client
pub mod Trips
pub mod Crashes
mod Tests
use Prim.Native.String
use Prim.Native.Char.{code}
use mesh_for_data.Base.{
  String, ℕ, ◌+◌, ◌&&◌, ◌==◌, if◌then◌else◌, nat_eq, ltb, Bool, true, false, Option, none, some,
  List, [], ◌∷◌,
}
use mesh_for_data.Base.Json.{Fields, Value, end, field, get_field, text}
use mesh_for_data.Base.Maps.{Map}
use mesh_for_data.Api.Taxonomy.{Action}

pub data AccessType : Type 0 where
  unknown_access read_access copy_access write_access : AccessType

pub record AccessOperation : Type 0 where
  pub type : AccessType
  pub destination : String

pub record DatasetContext : Type 0 where
  pub dataset_id : String
  pub operation : AccessOperation

pub record ApplicationContext : Type 0 where
  pub credential_path : String
  pub processing_geography : String
  pub properties : Map String
  pub datasets : List DatasetContext

pub data Level : Type 0 where
  unknown_level dataset_level column_level row_level cell_level : Level

pub record EnforcementAction : Type 0 where
  pub name : String
  pub id : String
  pub level : Level
  pub args : Map String

-- A used policy is its description.
pub record OperationDecision : Type 0 where
  pub operation : AccessOperation
  pub enforcement_actions : List EnforcementAction
  pub used_policies : List String

pub record DatasetDecision : Type 0 where
  pub dataset_id : String
  pub decisions : List OperationDecision

-- The code of the small letter.
unfoldable pub small : ℕ → ℕ
small n = if ltb 64 n && ltb n 91 then n + 32 else n

-- `strings.EqualFold`, for a first text without the letters k and s, which have other forms outside ASCII.
unfoldable pub equal_fold : String → String → Bool
unfolding small
equal_fold String.[] String.[] = true
equal_fold String.[] (String.◌∷◌ d t) = false
equal_fold (String.◌∷◌ c s) String.[] = false
equal_fold (String.◌∷◌ c s) (String.◌∷◌ d t) =
    let rest = equal_fold s t in if nat_eq (small (code c)) (small (code d)) then rest else false

-- `v.(string)`
abbrev pub as_text : Value → Option String
as_text (text s) = some s
as_text _ = none

-- `items[key]` as a text.
unfoldable pub get_text : String → Fields → Option String
unfolding get_field
get_text key items = elim (get_field key items) [ none ↦ none | some v ↦ as_text v ]

-- `delete(items, key)`
unfoldable pub delete_field : String → Fields → Fields
delete_field key end = end
delete_field key (field name old rest) =
    let later = delete_field key rest in if name == key then later else field name old later

-- `Action.UnmarshalJSON` on the fields of an object, with `none` for the panic on a name that is not a
-- text. No fields are as a nil map.
unfoldable pub unmarshal_action : Fields → Option Action
unfolding get_text delete_field
unmarshal_action items = elim (get_text "name" items) [
  | none ↦ none
  | some name ↦ some (record { name = name; additional_properties = delete_field "name" items })
]
