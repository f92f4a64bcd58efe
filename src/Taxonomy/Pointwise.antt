-- ===== src/Taxonomy/Pointwise.antt =====
-- What the merge of taxonomies gives at a path of property names.
use text.Mathlib.TextEquality.{eq_iff}
use mesh_for_data.Base.{
  String, ◌==◌, if◌then◌else◌, Bool-cases, inl, inr, ◌≡◌, refl, sym, ap, ◌∙◌, subst, List, [], ◌∷◌,
  All, arith,
}
use mesh_for_data.Base.Json.{Value}
use mesh_for_data.Taxonomy.{
  SchemaRef, Schemas, absent, schema, end, property, get_schema, set_schema, merge_schema_ref,
  merge_schemas, merge_documents, merge_definitions,
}

get_schema-set_schema :
    (key other : String) (s : SchemaRef) (ps : Schemas)
    → get_schema other (set_schema key s ps) ≡ (if key == other then s else get_schema other ps)
unfolding get_schema set_schema
get_schema-set_schema key other s end = refl
get_schema-set_schema key other s (property name old rest) = ground (
  arith,
  eq_iff key other,
  eq_iff name key,
  eq_iff name other,
  get_schema-set_schema key other s rest,
)

-- No name twice, as in every Go map.
abbrev pub HasNamesOnce : Schemas → Type 0
HasNamesOnce end = Unit
HasNamesOnce (property name s rest) = (get_schema name rest ≡ absent) × HasNamesOnce rest

-- The properties of a schema, without any for nil.
abbrev pub properties : SchemaRef → Schemas
properties absent = end
properties (schema k ps a i one any all n) = ps

-- The schema at a path of property names, nil where a property is missing.
abbrev pub schema_at : List String → SchemaRef → SchemaRef
schema_at [] s = s
schema_at (name ∷ path) s = schema_at path (get_schema name (properties s))

-- The definitions of a document, without a name twice there or in the properties at any path.
abbrev pub IsWellNamed : Schemas → Type 0
IsWellNamed doc =
    HasNamesOnce doc
    × ((key : String) (names : List String)
        → HasNamesOnce (properties (schema_at names (get_schema key doc))))

module _ (unique_strings : List String → List String) (unique_json : List Value → List Value) where
  abbrev merged : SchemaRef → SchemaRef → SchemaRef
  merged = merge_schema_ref unique_strings unique_json

  merge_schema_ref-absent : (s : SchemaRef) → merged s absent ≡ s
  unfolding merge_schema_ref
  merge_schema_ref-absent absent = refl
  merge_schema_ref-absent (schema k ps a i one any all n) = refl

  get_schema-merge_schemas :
      (key : String) (dst src : Schemas)
      → HasNamesOnce src
      → get_schema key (merge_schemas unique_strings unique_json dst src)
        ≡ merged (get_schema key dst) (get_schema key src)
  unfolding merge_schemas get_schema
  get_schema-merge_schemas key dst end once = sym (merge_schema_ref-absent (get_schema key dst))
  get_schema-merge_schemas key dst (property name s rest) (fresh, once) =
      let next = set_schema name (merged (get_schema name dst) s) dst in
      let later = get_schema-merge_schemas key next rest once in
      let found = get_schema-set_schema name key (merged (get_schema name dst) s) dst in
      elim (Bool-cases (name == key)) [
        | inr other ↦
            rw other (later ∙ ap (λ x. merged x (get_schema key rest)) (rw other at found))
        | inl same ↦
            let e : name ≡ key = (eq_iff name key).0 same in
            let none_left = subst (λ k. get_schema k rest ≡ absent) e fresh in
            rw same (
              later
              ∙ ap (λ x. merged (get_schema key next) x) none_left
              ∙ merge_schema_ref-absent (get_schema key next)
              ∙ (rw same at found)
              ∙ ap (λ k. merged (get_schema k dst) s) e)
      ]

  get_schema-properties :
      (name : String) (dst src : SchemaRef)
      → HasNamesOnce (properties src)
      → get_schema name (properties (merged dst src))
        ≡ merged (get_schema name (properties dst)) (get_schema name (properties src))
  unfolding merge_schema_ref
  get_schema-properties name absent src once = refl
  get_schema-properties name (schema k ps a i one any all n) absent once =
      sym (merge_schema_ref-absent (get_schema name ps))
  get_schema-properties name (schema k ps a i one any all n) (schema l qs b j x y z m) once =
      get_schema-merge_schemas name ps qs once

  -- At each path of property names, the merge of two schemas has the merge of what they have there, if
  -- no properties in the second have a name twice.
  pub schema_at-merge_schema_ref :
      (path : List String) (dst src : SchemaRef)
      → ((names : List String) → HasNamesOnce (properties (schema_at names src)))
      → schema_at path (merge_schema_ref unique_strings unique_json dst src)
        ≡ merge_schema_ref unique_strings unique_json (schema_at path dst) (schema_at path src)
  schema_at-merge_schema_ref [] dst src once = refl
  schema_at-merge_schema_ref (name ∷ path) dst src once =
      ap (schema_at path) (get_schema-properties name dst src (once []))
      ∙ schema_at-merge_schema_ref path (get_schema name (properties dst))
          (get_schema name (properties src)) (λ names. once (name ∷ names))

  -- The merge of what the documents have at a path in one definition, in their order.
  abbrev pub merge_each : String → List String → SchemaRef → List Schemas → SchemaRef
  merge_each key path s [] = s
  merge_each key path s (doc ∷ rest) =
      merge_each key path (merged s (schema_at path (get_schema key doc))) rest

  schema_at-merge_documents :
      (key : String) (path : List String) (result : Schemas) (documents : List Schemas)
      → All IsWellNamed documents
      → schema_at path
          (get_schema key (merge_documents unique_strings unique_json result documents))
        ≡ merge_each key path (schema_at path (get_schema key result)) documents
  unfolding merge_documents
  schema_at-merge_documents key path result [] once = refl
  schema_at-merge_documents key path result (doc ∷ rest) ((h, nested), once) =
      schema_at-merge_documents key path (merge_schemas unique_strings unique_json result doc) rest
        once
      ∙ ap (λ s. merge_each key path s rest)
          (ap (schema_at path) (get_schema-merge_schemas key result doc h)
            ∙ schema_at-merge_schema_ref path (get_schema key result) (get_schema key doc)
                (nested key))

  -- At each path of property names in a definition, the merged definitions have the merge of what the
  -- documents have there, in their order, if no document has a name twice in its definitions or in
  -- their properties.
  pub schema_at-merge_definitions :
      (key : String) (path : List String) (documents : List Schemas)
      → All IsWellNamed documents
      → schema_at path (get_schema key (merge_definitions unique_strings unique_json documents))
        ≡ merge_each key path (schema_at path absent) documents
  unfolding merge_definitions get_schema
  schema_at-merge_definitions key path documents once =
      schema_at-merge_documents key path end documents once
