-- ===== src/Cleanup/Emptied.antt =====
-- What `delete_external_resources` of Cleanup.antt leaves.
use mesh_for_data.Base.{
  String, if◌then◌else◌, ◌≡◌, refl, ap, ◌∙◌, Bool-cases, true, false, inl, inr, Option,
  Option-cases, none, some, List, [], ◌∷◌, ◌||◌, ◌<>◌, arith, eq_iff, is_empty,
}
use mesh_for_data.Base.Maps.{Map, delete, lookup, lookup-delete}
use mesh_for_data.Api.Application.{DatasetDetails, FybrikApplication, ResourceReference}
use mesh_for_data.Planner.Choice.{has_string}
use mesh_for_data.Cleanup.{
  Server, delete_datasets, delete_external_resources, delete_generated, delete_keys, or_no_storage,
  reconcile_app_finalizers, storage_of, without,
}

keys_of : Map DatasetDetails → List String
keys_of [] = []
keys_of ((id, details) ∷ rest) = id ∷ keys_of rest

lookup-delete_keys :
    (keys : List String) (m : Map DatasetDetails) (id : String)
    → lookup id (delete_keys keys m) ≡ (if has_string id keys then none else lookup id m)
unfolding delete_keys has_string
lookup-delete_keys [] m id = refl
lookup-delete_keys (k ∷ rest) m id =
    ground (
      arith,
      lookup-delete_keys rest (delete k m) id,
      lookup-delete m k id,
      eq_iff k id,
      eq_iff id k,
    )

lookup-keys_of :
    (m : Map DatasetDetails) (id : String)
    → (if has_string id (keys_of m) then none else lookup id m) ≡ none
unfolding lookup has_string keys_of
lookup-keys_of [] id = refl
lookup-keys_of ((k, details) ∷ rest) id =
    ground (arith, lookup-keys_of rest id, eq_iff k id, eq_iff id k)

module _ {W : Type 0} (server : Server W) where
  delete_datasets_keys :
      (m : Map DatasetDetails) (w : W)
      → is_empty (delete_datasets server m w).1.messages ≡ true
      → (delete_datasets server m w).1.keys ≡ keys_of m
  unfolding delete_datasets keys_of
  delete_datasets_keys [] w h = refl
  delete_datasets_keys ((id, details) ∷ rest) w h =
      let r = server.delete_dataset w details.dataset_ref in
      elim (Option-cases r.1) [
        | inr (e, failed) ↦ absurd (ground arith)
        | inl done ↦ let i = delete_datasets_keys rest r.0 (ground arith) in ground arith
      ]

  delete_generated-none :
      (a : FybrikApplication) (o : Option ResourceReference) (w : W)
      → a.status.generated ≡ o
      → (delete_generated server a o w).2 ≡ none
      → ((delete_generated server a o w).1.status.generated ≡ none)
        × ((delete_generated server a o w).1.status.provisioned_storage
            ≡ a.status.provisioned_storage)
  unfolding delete_generated
  delete_generated-none a none w e h = (e, refl)
  delete_generated-none a (some ref) w e h = elim (Option-cases (server.delete_resource w ref).1) [
    | inr (message, failed) ↦ absurd (ground arith)
    | inl done ↦ (ground arith, ground arith)
  ]

  without_storage :
      (a : FybrikApplication) (keys : List String) (id : String)
      → keys ≡ keys_of (storage_of a)
      → lookup id (storage_of (without server keys a)) ≡ none
  unfolding lookup
  without_storage a keys id e = elim (Option-cases a.status.provisioned_storage) [
    | inl nil ↦ rw nil refl
    | inr (m, have) ↦ rw have (lookup-delete_keys keys m id ∙ rw (e, have) (lookup-keys_of m id))
  ]

  -- If the deletion returns no error, then the application has no generated resource and no
  -- provisioned storage left for any asset.
  delete_external_resources_emptied :
      (a : FybrikApplication) (w : W) (id : String)
      → (delete_external_resources server a w).2 ≡ none
      → ((delete_external_resources server a w).1.status.generated ≡ none)
        × (lookup id (storage_of (delete_external_resources server a w).1) ≡ none)
  unfolding delete_external_resources
  delete_external_resources_emptied a w id h =
      let r = delete_datasets server (storage_of a) w in
      elim (Bool-cases (is_empty r.1.messages)) [
        | inr failed ↦ absurd (ground arith)
        | inl clean ↦
            let left = without server r.1.keys a in
            let (gone, same) =
              delete_generated-none left a.status.generated r.0 refl (ground arith) in
            let free =
              without_storage a r.1.keys id (delete_datasets_keys (storage_of a) w clean) in
            (rw clean gone, rw clean (ap (λ o. lookup id (or_no_storage o)) same ∙ free))
      ]

  delete_generated_finalizers :
      (a : FybrikApplication) (o : Option ResourceReference) (w : W)
      → (delete_generated server a o w).1.finalizers ≡ a.finalizers
  unfolding delete_generated
  delete_generated_finalizers a none w = refl
  delete_generated_finalizers a (some ref) w = ground arith

  delete_external_resources_finalizers :
      (a : FybrikApplication) (w : W)
      → (delete_external_resources server a w).1.finalizers ≡ a.finalizers
  unfolding delete_external_resources
  delete_external_resources_finalizers a w =
      let r = delete_datasets server (storage_of a) w in
      ground (arith, delete_generated_finalizers (without server r.1.keys a) a.status.generated r.0)

  -- If the application has the finalizer before the step and not after it, then it is being deleted or
  -- asks for no asset, and has no generated resource and no provisioned storage left for any asset.
  pub reconcile_app_finalizers_emptied :
      (reconciler : String) (a : FybrikApplication) (w : W) (id : String)
      → has_string (reconciler <> ".finalizer") a.finalizers ≡ true
      → has_string
          (reconciler <> ".finalizer")
          (reconcile_app_finalizers server reconciler a w).1.finalizers
        ≡ false
      → ((a.deleted || is_empty a.spec.requested) ≡ true)
        × ((reconcile_app_finalizers server reconciler a w).1.status.generated ≡ none)
        × (lookup id (storage_of (reconcile_app_finalizers server reconciler a w).1) ≡ none)
  unfolding reconcile_app_finalizers
  reconcile_app_finalizers_emptied reconciler a w id present gone =
      let same = delete_external_resources_finalizers a w in
      elim (Bool-cases (a.deleted || is_empty a.spec.requested)) [
        | inr alive ↦ absurd (ground arith)
        | inl ends ↦ elim (Option-cases (delete_external_resources server a w).2) [
          | inr (e, failed) ↦ absurd (ground arith)
          | inl done ↦
              let (cleaned, free) = delete_external_resources_emptied a w id done in
              (ends, rw (ends, present, done) cleaned, rw (ends, present, done) free)
        ]
      ]
