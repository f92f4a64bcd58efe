-- ===== src/Datasets/Again.antt =====
-- `create_dataset` of Datasets.antt called twice.
use mesh_for_data.Base.{
  String, ◌≡◌, refl, ap, ◌∙◌, eq_refl, Bool-cases, true, inl, inr, Option-cases, none, some, List,
  [], ◌∷◌, Result-cases, ok, arith,
}
use mesh_for_data.Base.Json.{Fields, end}
use mesh_for_data.Base.Maps.{Map, lookup}
use mesh_for_data.Generate.{NamespacedName, ProvisionedBucket}
use mesh_for_data.Datasets.{
  Client, Dataset, create_dataset, create_new, dataset_labels, delete_dataset, equal, local_value,
  local_values, or_empty,
}

module _ {W : Type 0} (client : Client W) where
  -- What is written as a map of texts can be read field by field.
  abbrev pub HasFields : Type 0
  HasFields =
      (values : Map String) (content : Fields) (key v : String)
      → client.set_nested_string_map end values ("spec" ∷ "local" ∷ []) ≡ ok content
      → lookup key values ≡ some v
      → client.nested_string content ("spec" ∷ "local" ∷ key ∷ []) ≡ some v

  -- An object that is created can be read, with its specification.
  abbrev pub HasCreated : Type 0
  HasCreated =
      (w w' : W) (d : Dataset)
      → client.create w d ≡ (w', none)
      → (e : Dataset) × (client.get w' d.ref ≡ ok e)
        × ((path : List String)
            → client.nested_string e.content ("spec" ∷ path)
              ≡ client.nested_string d.content ("spec" ∷ path))

  equal_lem :
      (bucket : ProvisionedBucket) (d : Dataset)
      → local_value client d "bucket" ≡ bucket.name
      → local_value client d "endpoint" ≡ bucket.endpoint
      → local_value client d "secret-name" ≡ bucket.secret_ref.name
      → local_value client d "secret-namespace" ≡ bucket.secret_ref.namespace
      → equal client bucket d ≡ true
  unfolding equal
  equal_lem bucket d a b c e =
      rw (a, b, c, e, eq_refl bucket.name, eq_refl bucket.endpoint, eq_refl bucket.secret_ref.name)
        (eq_refl bucket.secret_ref.namespace)

  create_new_kept :
      (ref owner : NamespacedName) (bucket : ProvisionedBucket) (w w' : W)
      → HasFields
      → HasCreated
      → create_new client ref bucket owner w ≡ (w', none)
      → (d : Dataset) × (client.get w' ref ≡ ok d) × (equal client bucket d ≡ true)
  unfolding create_new lookup
  create_new_kept ref owner bucket w w' fields created h =
      elim (Result-cases
        (client.set_nested_string_map end (local_values bucket) ("spec" ∷ "local" ∷ []))) [
          | inr (e, bad) ↦ absurd (ground arith)
          | inl (content, given) ↦
              let d : Dataset = record {
                ref = ref;
                labels = dataset_labels owner;
                content = content;
              } in
              let (e, found, same) = created w w' d (ground arith) in
              let read : (key v : String)
                  → lookup key (local_values bucket) ≡ some v
                  → local_value client e key ≡ v =
                λ key v there. ap or_empty (
                  same ("local" ∷ key ∷ [])
                  ∙ fields (local_values bucket) content key v given there) in
              (
                e,
                found,
                equal_lem bucket e (read "bucket" bucket.name refl)
                    (read "endpoint" bucket.endpoint refl)
                    (read "secret-name" bucket.secret_ref.name refl)
                    (read "secret-namespace" bucket.secret_ref.namespace refl),
              )
        ]

  create_dataset_kept :
      (ref owner : NamespacedName) (bucket : ProvisionedBucket) (w : W)
      → (d : Dataset) × (client.get w ref ≡ ok d) × (equal client bucket d ≡ true)
      → create_dataset client ref bucket owner w ≡ (w, none)
  unfolding create_dataset
  create_dataset_kept ref owner bucket w (d, found, same) = ground arith

  -- Where `create_dataset` succeeds, a second call for the same bucket succeeds and changes nothing, on a
  -- client that reads what it has written.
  pub create_dataset_again :
      (ref owner : NamespacedName) (bucket : ProvisionedBucket) (w w' : W)
      → HasFields
      → HasCreated
      → create_dataset client ref bucket owner w ≡ (w', none)
      → create_dataset client ref bucket owner w' ≡ (w', none)
  unfolding create_dataset
  create_dataset_again ref owner bucket w w' fields created h =
      elim (Result-cases (client.get w ref)) [
        | inr (e, absent) ↦
            create_dataset_kept ref owner bucket w'
              (create_new_kept ref owner bucket w w' fields created (ground arith))
        | inl (d, found) ↦ elim (Bool-cases (equal client bucket d)) [
          | inl same ↦ ground arith
          | inr other ↦ elim (Option-cases (delete_dataset client ref w).1) [
            | inr (e, failed) ↦ absurd (ground arith)
            | inl deleted ↦ create_dataset_kept ref owner bucket w' (
                create_new_kept ref owner bucket (delete_dataset client ref w).0 w' fields created
                  (ground arith))
          ]
        ]
      ]
