-- ===== src/Taxonomy.antt =====
-- The merge of taxonomy documents: pkg/taxonomy/model and pkg/taxonomy/compile/merge.go. Numbers are
-- their JSON texts. A missing map of schemas is an empty one. Documents do not share schemas, so the
-- schemas that the merge takes over from them are values. The removal of duplicates is a parameter.
mod Pointwise
mod Tests
use mesh_for_data.Base.{
  String, ◌==◌, if◌then◌else◌, Bool, ◌||◌, Option, none, some, List, [], ◌∷◌, ◌++◌,
}
use mesh_for_data.Base.Json.{Value}

-- The fields of a schema that hold no other schema.
pub record Keywords : Type 0 where
  pub ref : String
  pub schema_type : String
  pub title : String
  pub description : String
  pub default_value : Option Value
  pub required : List String
  pub min_props : Option String
  pub max_props : Option String
  pub format : String
  pub enum : List Value
  pub min_length : Option String
  pub max_length : Option String
  pub pattern : String
  pub min : Option String
  pub max : Option String
  pub multiple_of : Option String
  pub exclusive_min : Bool
  pub exclusive_max : Bool
  pub min_items : Option String
  pub max_items : Option String
  pub unique_items : Bool

-- A reference to a schema is nil or has the keywords, the properties, the additional properties, the
-- items, oneOf, anyOf, allOf and not. The additional properties are nil, a Boolean or a schema.
mutual
  pub data SchemaRef : Type 0 where
    absent : SchemaRef
    schema :
        Keywords
        → Schemas
        → AdditionalPropertiesType
        → SchemaRef
        → SchemaRefs
        → SchemaRefs
        → SchemaRefs
        → SchemaRef
        → SchemaRef

  pub data Schemas : Type 0 where
    end : Schemas
    property : String → SchemaRef → Schemas → Schemas

  pub data SchemaRefs : Type 0 where
    nil : SchemaRefs
    cons : SchemaRef → SchemaRefs → SchemaRefs

  pub data AdditionalPropertiesType : Type 0 where
    unset : AdditionalPropertiesType
    allowed : Bool → AdditionalPropertiesType
    typed : SchemaRef → AdditionalPropertiesType

-- `schemas[key]`, nil for a missing key.
unfoldable pub get_schema : String → Schemas → SchemaRef
get_schema key end = absent
get_schema key (property name s rest) =
    let later = get_schema key rest in if name == key then s else later

-- `schemas[key] = s`
unfoldable pub set_schema : String → SchemaRef → Schemas → Schemas
set_schema key s end = property key s end
set_schema key s (property name old rest) =
    let later = set_schema key s rest in
    if name == key then property key s rest else property name old later

unfoldable pub append_refs : SchemaRefs → SchemaRefs → SchemaRefs
append_refs nil refs = refs
append_refs (cons s rest) refs = cons s (append_refs rest refs)

abbrev pub maybe_override_string : String → String → String
maybe_override_string dst src = if src == "" then dst else src

abbrev pub maybe_override : {A : Type 0} → Option A → Option A → Option A
maybe_override dst none = dst
maybe_override dst (some src) = some src

-- `dst.AdditionalProperties.Schema`
abbrev pub schema_of : AdditionalPropertiesType → SchemaRef
schema_of unset = absent
schema_of (allowed b) = absent
schema_of (typed s) = s

-- The override by `src`, which keeps the old value where this is nil.
abbrev pub override_typed :
    AdditionalPropertiesType → SchemaRef → SchemaRef → AdditionalPropertiesType
override_typed dst absent merged = dst
override_typed dst (schema k ps a i one any all n) merged = typed merged

-- `unique.Strings` and `slices.UniqueJSONSlice`.
module _ (unique_strings : List String → List String) (unique_json : List Value → List Value) where
  unfoldable pub merge_keywords : Keywords → Keywords → Keywords
  merge_keywords dst src = record {
    ref = dst.ref;
    schema_type = dst.schema_type;
    title = maybe_override_string dst.title src.title;
    description = maybe_override_string dst.description src.description;
    default_value = maybe_override dst.default_value src.default_value;
    required = unique_strings (dst.required ++ src.required);
    min_props = maybe_override dst.min_props src.min_props;
    max_props = maybe_override dst.max_props src.max_props;
    format = maybe_override_string dst.format src.format;
    enum = unique_json (dst.enum ++ src.enum);
    min_length = maybe_override dst.min_length src.min_length;
    max_length = maybe_override dst.max_length src.max_length;
    pattern = maybe_override_string dst.pattern src.pattern;
    min = maybe_override dst.min src.min;
    max = maybe_override dst.max src.max;
    multiple_of = maybe_override dst.multiple_of src.multiple_of;
    exclusive_min = src.exclusive_min || dst.exclusive_min;
    exclusive_max = src.exclusive_max || dst.exclusive_max;
    min_items = maybe_override dst.min_items src.min_items;
    max_items = maybe_override dst.max_items src.max_items;
    unique_items = src.unique_items || dst.unique_items;
  }

  -- The merge of schemas, of maps of them (the loops over properties and over definitions), and of
  -- additional properties.
  unfoldable mutual
    unfolding get_schema set_schema append_refs merge_keywords

    pub merge_schema_ref : SchemaRef → SchemaRef → SchemaRef
    merge_schema_ref absent src = src
    merge_schema_ref (schema k ps a i one any all n) absent = schema k ps a i one any all n
    merge_schema_ref (schema k ps a i one any all n) (schema k' ps' a' i' one' any' all' n') =
        schema (merge_keywords k k') (merge_schemas ps ps') (merge_additional a a')
          (merge_schema_ref i i') (append_refs one one') (append_refs any any')
          (append_refs all all') (merge_schema_ref n n')

    pub merge_schemas : Schemas → Schemas → Schemas
    merge_schemas dst end = dst
    merge_schemas dst (property name s rest) =
        merge_schemas (set_schema name (merge_schema_ref (get_schema name dst) s) dst) rest

    pub merge_additional :
        AdditionalPropertiesType → AdditionalPropertiesType → AdditionalPropertiesType
    merge_additional dst unset = dst
    merge_additional dst (allowed b) = allowed b
    merge_additional dst (typed s) = override_typed dst s (merge_schema_ref (schema_of dst) s)

  -- The loop over the documents, each by its definitions.
  unfoldable pub merge_documents : Schemas → List Schemas → Schemas
  unfolding merge_schemas
  merge_documents result [] = result
  merge_documents result (doc ∷ rest) = merge_documents (merge_schemas result doc) rest

  unfoldable pub merge_definitions : List Schemas → Schemas
  unfolding merge_documents
  merge_definitions documents = merge_documents end documents
