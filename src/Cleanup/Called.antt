-- ===== src/Cleanup/Called.antt =====
-- The calls that `delete_external_resources` of Cleanup.antt makes.
use mesh_for_data.Base.{
  String, ◌≡◌, refl, ap, Bool-cases, true, inl, inr, Option, Option-cases, none, some, [], ◌∷◌,
  arith, is_empty,
}
use mesh_for_data.Base.Maps.{Map}
use mesh_for_data.Api.Application.{DatasetDetails, FybrikApplication, ResourceReference}
use mesh_for_data.Cleanup.{
  Server, delete_datasets, delete_external_resources, delete_generated, storage_of, without,
}

module _ {W : Type 0} (server : Server W) where
  -- DeleteDataset succeeds for each entry in turn, from the first state to the last one.
  abbrev pub AreDeleted : Map DatasetDetails → W → W → Type 0
  AreDeleted [] w last = w ≡ last
  AreDeleted ((id, details) ∷ rest) w last =
      (after : W) × (server.delete_dataset w details.dataset_ref ≡ (after, none))
      × AreDeleted rest after last

  -- DeleteResource succeeds for the resource, if there is one.
  abbrev pub IsDeleted : Option ResourceReference → W → W → Type 0
  IsDeleted none w last = w ≡ last
  IsDeleted (some ref) w last = server.delete_resource w ref ≡ (last, none)

  delete_datasets-AreDeleted :
      (m : Map DatasetDetails) (w : W)
      → is_empty (delete_datasets server m w).1.messages ≡ true
      → AreDeleted m w (delete_datasets server m w).0
  unfolding delete_datasets
  delete_datasets-AreDeleted [] w h = refl
  delete_datasets-AreDeleted ((id, details) ∷ rest) w h =
      let r = server.delete_dataset w details.dataset_ref in
      elim (Option-cases r.1) [
        | inr (e, failed) ↦ absurd (ground arith)
        | inl done ↦ (
          r.0,
          ap (λ (o : Option String). (r.0, o)) done,
          delete_datasets-AreDeleted rest r.0 (ground arith),
        )
      ]

  delete_generated-IsDeleted :
      (a : FybrikApplication) (o : Option ResourceReference) (w : W)
      → (delete_generated server a o w).2 ≡ none
      → IsDeleted o w (delete_generated server a o w).0
  unfolding delete_generated
  delete_generated-IsDeleted a none w h = refl
  delete_generated-IsDeleted a (some ref) w h =
      let r = server.delete_resource w ref in
      elim (Option-cases r.1) [
        | inr (e, failed) ↦ absurd (ground arith)
        | inl done ↦ rw (delete_generated, done) refl
      ]

  -- If the deletion returns no error, then DeleteDataset succeeded for the bucket of every entry of
  -- the provisioned storage, one after the other, and then DeleteResource for the generated resource,
  -- if there was one; these are all the calls that were made.
  pub delete_external_resources-AreDeleted :
      (a : FybrikApplication) (w : W)
      → (delete_external_resources server a w).2 ≡ none
      → (between : W) × AreDeleted (storage_of a) w between
        × IsDeleted a.status.generated between (delete_external_resources server a w).0
  unfolding delete_external_resources
  delete_external_resources-AreDeleted a w h =
      let r = delete_datasets server (storage_of a) w in
      elim (Bool-cases (is_empty r.1.messages)) [
        | inr failed ↦ absurd (ground arith)
        | inl clean ↦
            let left = without server r.1.keys a in
            (
              r.0,
              delete_datasets-AreDeleted (storage_of a) w clean,
              rw clean (delete_generated-IsDeleted left a.status.generated r.0 (ground arith)),
            )
      ]
