-- ===== src/Taxonomy/Tests.antt =====
-- The merge of two documents that both define Action, with the property name and another one.
use mesh_for_data.Base.{String, ◌==◌, Bool-cases, inl, inr, false, none, ◌≡◌, refl, List, [], ◌∷◌}
use mesh_for_data.Taxonomy.{
  AdditionalPropertiesType, Keywords, SchemaRef, Schemas, absent, allowed, end, get_schema,
  merge_definitions, nil, property, schema, typed, unset,
}
use mesh_for_data.Taxonomy.Pointwise.{
  HasNamesOnce, IsWellNamed, merge_each, properties, schema_at, schema_at-merge_definitions,
}

abbrev titled : String → List String → Keywords
titled title required = record {
  ref = "";
  schema_type = "object";
  title = title;
  description = "";
  default_value = none;
  required = required;
  min_props = none;
  max_props = none;
  format = "";
  enum = [];
  min_length = none;
  max_length = none;
  pattern = "";
  min = none;
  max = none;
  multiple_of = none;
  exclusive_min = false;
  exclusive_max = false;
  min_items = none;
  max_items = none;
  unique_items = false;
}

abbrev leaf : String → SchemaRef
leaf title = schema (titled title []) end unset absent nil nil nil absent

abbrev action : String → AdditionalPropertiesType → SchemaRef
action other more =
    schema (titled "" (other ∷ [])) (property "name" (leaf other) (property other (leaf "") end))
      more absent nil nil nil absent

abbrev base : Schemas
base = property "Action" (action "columns" (typed absent)) end

abbrev layer : Schemas
layer = property "Action" (action "rows" (allowed false)) end

-- Duplicates stay, as these documents have none.
abbrev kept : {A : Type 0} → List A → List A
kept l = l

merged_here :
    get_schema "Action" (merge_definitions kept kept (base ∷ layer ∷ []))
    ≡ schema
        (titled "" ("columns" ∷ "rows" ∷ []))
        (property "name"
          (leaf "rows")
          (property "columns" (leaf "") (property "rows" (leaf "") end)))
        (allowed false)
        absent
        nil
        nil
        nil
        absent
unfolding merge_definitions get_schema
merged_here = refl

absent_once : (names : List String) → HasNamesOnce (properties (schema_at names absent))
unfolding get_schema
absent_once [] = tt
absent_once (name ∷ names) = absent_once names

leaf_once :
    (title : String) (names : List String)
    → HasNamesOnce (properties (schema_at names (leaf title)))
unfolding get_schema
leaf_once title [] = tt
leaf_once title (name ∷ names) = absent_once names

abbrev IsOnceBelow : SchemaRef → Type 0
IsOnceBelow s = (names : List String) → HasNamesOnce (properties (schema_at names s))

property-IsOnceBelow :
    (key name : String) (s : SchemaRef) (rest : Schemas)
    → IsOnceBelow s
    → IsOnceBelow (get_schema key rest)
    → IsOnceBelow (get_schema key (property name s rest))
unfolding get_schema
property-IsOnceBelow key name s rest here there names = elim (Bool-cases (name == key)) [
  | inl same ↦ rw same (here names)
  | inr other ↦ rw other (there names)
]

action-IsOnceBelow :
    (other : String) (more : AdditionalPropertiesType)
    → HasNamesOnce (properties (action other more))
    → IsOnceBelow (action other more)
unfolding get_schema
action-IsOnceBelow other more once [] = once
action-IsOnceBelow other more once (key ∷ names) =
    property-IsOnceBelow key "name" (leaf other) (property other (leaf "") end) (leaf_once other)
      (property-IsOnceBelow key other (leaf "") end (leaf_once "") absent_once) names

document-IsWellNamed :
    (other : String) (more : AdditionalPropertiesType)
    → HasNamesOnce (properties (action other more))
    → IsWellNamed (property "Action" (action other more) end)
unfolding get_schema
document-IsWellNamed other more once = (
  (refl, tt),
  λ key.
      property-IsOnceBelow key "Action" (action other more) end (action-IsOnceBelow other more once)
        absent_once,
)

schema_at-merge_definitions_example :
    schema_at ("name" ∷ []) (get_schema "Action" (merge_definitions kept kept (base ∷ layer ∷ [])))
    ≡ merge_each kept kept "Action"
        ("name" ∷ [])
        (schema_at ("name" ∷ []) absent)
        (base ∷ layer ∷ [])
unfolding get_schema
schema_at-merge_definitions_example =
    schema_at-merge_definitions kept kept "Action" ("name" ∷ []) (base ∷ layer ∷ []) (
      document-IsWellNamed "columns" (typed absent) (refl, (refl, tt)),
      (document-IsWellNamed "rows" (allowed false) (refl, (refl, tt)), tt),
    )
