-- ===== src/Assemble/Guarded.antt =====
-- When `reconcile_application` of Assemble/Reconcile.antt notes a plotter.
use mesh_for_data.Base.{
  String, ◌==◌, is_empty, ◌≡◌, refl, ◌∙◌, subst, Bool, Bool-cases, true, false, ◌⊎◌, inl, inr,
  Option, Option-cases, none, some, List, [], ◌∷◌, All, Result, Result-cases, ok, err, arith,
}
use mathlib.Core.Option.{some-injective}
use mesh_for_data.Base.Maps.{Map}
use mesh_for_data.Api.Taxonomy.{Cluster}
use mesh_for_data.Api.Application.{DatasetDetails, FybrikApplication}
use mesh_for_data.Api.Plotter.{PlotterSpec}
use mesh_for_data.Cleanup.{storage_of}
use mesh_for_data.Planner.{DataInfo}
use mesh_for_data.Status.{States, get_error_messages, init_status, states_of, with_states}
use mesh_for_data.Assemble.{Services, gather_requirements, get_workload_cluster}
use mesh_for_data.Assemble.Endpoints.{set_read_modules_endpoints}
use mesh_for_data.Assemble.Reconcile.{
  Assembled, after_storage, conclude_write, owner_of, reconcile_application, reference_of,
  settle_cluster, settle_requirements, settle_solution, settle_storage, with_storage, write_plotter,
}
use mesh_for_data.Assemble.Resource.{PlotterStore, create_or_update_resource}
use mesh_for_data.Assemble.Solution.{Built, Workshop, build_solution}
use mesh_for_data.Assemble.Storage.{
  Provision, ProvisionedStorageStatus, check_buckets, update_provisioned_storage_status,
}

module _ {W : Type 0} (services : Services W) (workshop : Workshop W) (provision : Provision W)
    (store : PlotterStore W) where
  -- The bucket is provisioned.
  abbrev pub IsProvisioned : W → String × DatasetDetails → Type 0
  IsProvisioned w entry =
      (s : ProvisionedStorageStatus) × (provision.get_dataset_status w entry.1.dataset_ref ≡ ok s)
      × (s.provisioned ≡ true)

  check_buckets_lem :
      (w : W) (l : Map DatasetDetails)
      → check_buckets provision w l ≡ ok true
      → All (IsProvisioned w) l
  unfolding check_buckets
  check_buckets_lem w [] h = tt
  check_buckets_lem w (entry ∷ rest) h =
      elim (Result-cases (provision.get_dataset_status w entry.1.dataset_ref)) [
        | inr (e, bad) ↦ absurd (ground arith)
        | inl (s, given) ↦ elim (Bool-cases s.provisioned) [
          | inl present ↦ ((s, given, present), check_buckets_lem w rest (ground arith))
          | inr absent ↦ absurd (ground arith)
        ]
      ]

  -- The application keeps the plotter that it has, or it notes its own, which was written from a state
  -- in which all its buckets are provisioned.
  abbrev pub IsGuarded : FybrikApplication → Assembled W → Type 0
  IsGuarded a r =
      (r.application.status.generated ≡ a.status.generated)
      ⊎ ((r.application.status.generated ≡ some (reference_of services workshop provision store a))
          × ((at : W) × (spec : PlotterSpec) × All (IsProvisioned at) (storage_of r.application)
              × (create_or_update_resource store (owner_of a)
                    (reference_of services workshop provision store a) spec a.labels a.uid at
                  ≡ (r.world, none))))

  conclude_write-IsGuarded :
      (a : FybrikApplication) (m : States) (spec : PlotterSpec) (w : W) (p : W × Option String)
      → create_or_update_resource store
          (owner_of a)
          (reference_of services workshop provision store a)
          spec
          a.labels
          a.uid
          w
        ≡ p
      → All (IsProvisioned w) (storage_of a)
      → IsGuarded a (conclude_write services workshop provision store (with_states a m) p)
  unfolding conclude_write reference_of
  conclude_write-IsGuarded a m spec w (after, none) same all = inr (refl, (w, spec, all, same))
  conclude_write-IsGuarded a m spec w (after, some e) same all =
      elim (Bool-cases (e == "cluster configuration does not support the requirements")) [
        | inl known ↦ rw known (inl refl)
        | inr other ↦ rw other (inl refl)
      ]

  write_plotter-IsGuarded :
      (a : FybrikApplication) (spec : PlotterSpec) (w : W) (r : Assembled W)
      → All (IsProvisioned w) (storage_of a)
      → write_plotter services workshop provision store a spec w ≡ some r
      → IsGuarded a r
  unfolding write_plotter reference_of
  write_plotter-IsGuarded a spec w r all h =
      elim (Option-cases (
        set_read_modules_endpoints a.spec.requested spec.flows (states_of a.status.asset_states))) [
          | inl bad ↦ absurd (ground arith)
          | inr (m, given) ↦
              let noted = with_states a m in
              let written =
                create_or_update_resource store (owner_of noted)
                  (reference_of services workshop provision store noted) spec noted.labels noted.uid
                  w in
              let there : some (conclude_write services workshop provision store noted written)
                  ≡ write_plotter services workshop provision store a spec w =
                rw given refl in
              subst (IsGuarded a) (some-injective _ _ (there ∙ h))
                (conclude_write-IsGuarded a m spec w written refl all)
        ]

  after_storage-IsGuarded :
      (a : FybrikApplication) (spec : PlotterSpec) (w : W) (ready : Result Bool) (r : Assembled W)
      → (ready ≡ ok true → All (IsProvisioned w) (storage_of a))
      → after_storage services workshop provision store a spec w ready ≡ some r
      → IsGuarded a r
  unfolding after_storage
  after_storage-IsGuarded a spec w (err e) r all h =
      subst (IsGuarded a) (some-injective _ _ h) (inl refl)
  after_storage-IsGuarded a spec w (ok false) r all h =
      subst (IsGuarded a) (some-injective _ _ h) (inl refl)
  after_storage-IsGuarded a spec w (ok true) r all h =
      write_plotter-IsGuarded a spec w r (all refl) h

  settle_storage-IsGuarded :
      (a : FybrikApplication) (b : Built W) (r : Assembled W)
      → settle_storage services workshop provision store a b ≡ some r
      → IsGuarded a r
  unfolding settle_storage update_provisioned_storage_status reference_of
  settle_storage-IsGuarded a b r h =
      let updated =
        update_provisioned_storage_status provision b.stores.provisioned (storage_of a)
          b.stores.world in
      after_storage-IsGuarded (with_storage a updated.1) b.spec updated.0 updated.2 r
        (λ ready. check_buckets_lem updated.0 updated.1 ready) h

  settle_solution-IsGuarded :
      (a : FybrikApplication) (w : W) (result : Result (Built W)) (r : Assembled W)
      → settle_solution services workshop provision store a w result ≡ some r
      → IsGuarded a r
  unfolding settle_solution reference_of
  settle_solution-IsGuarded a w (err e) r h = subst (IsGuarded a) (some-injective _ _ h) (inl refl)
  settle_solution-IsGuarded a w (ok b) r h =
      let built = with_states a b.states in
      elim (Option-cases (get_error_messages built)) [
        | inl bad ↦ absurd (ground arith)
        | inr (message, given) ↦ elim (Bool-cases (message == "")) [
          | inl silent ↦ settle_storage-IsGuarded built b r (ground arith)
          | inr told ↦
              let same : some
                    (record { world = b.stores.world; application = built; outcome = ok 0 })
                  ≡ some r =
                ground arith in
              subst (IsGuarded a) (some-injective _ _ same) (inl refl)
        ]
      ]

  settle_requirements-IsGuarded :
      (a : FybrikApplication) (w : W) (p : List DataInfo × States) (r : Assembled W)
      → settle_requirements services workshop provision store a w p ≡ some r
      → IsGuarded a r
  unfolding settle_requirements reference_of
  settle_requirements-IsGuarded a w ([], m) r h =
      subst (IsGuarded a) (some-injective _ _ h) (inl refl)
  settle_requirements-IsGuarded a w (item ∷ items, m) r h =
      elim (Option-cases (build_solution services workshop a (item ∷ items) w m)) [
        | inl bad ↦ absurd (ground arith)
        | inr (result, given) ↦
            settle_solution-IsGuarded (with_states a m) w result r (ground arith)
      ]

  settle_cluster-IsGuarded :
      (a : FybrikApplication) (w : W) (workload : Result Cluster) (r : Assembled W)
      → settle_cluster services workshop provision store a w workload ≡ some r
      → IsGuarded a r
  unfolding settle_cluster
  settle_cluster-IsGuarded a w (err e) r h = subst (IsGuarded a) (some-injective _ _ h) (inl refl)
  settle_cluster-IsGuarded a w (ok workload) r h =
      elim (Option-cases (
        gather_requirements services a workload a.spec.requested
          (states_of a.status.asset_states))) [
            | inl bad ↦ absurd (ground arith)
            | inr (p, given) ↦ settle_requirements-IsGuarded a w p r (ground arith)
          ]

  -- After `reconcile_application`, where it does not panic, the application has the reference to a
  -- plotter that it had before, or the reference to its own one, and this was written without an error
  -- from a state in which every bucket in the application's status is provisioned.
  pub reconcile_application-IsGuarded :
      (a : FybrikApplication) (w : W) (r : Assembled W)
      → reconcile_application services workshop provision store a w ≡ some r
      → IsGuarded a r
  unfolding reconcile_application init_status reference_of
  reconcile_application-IsGuarded a w r h =
      let fresh = with_storage (init_status a) (storage_of a) in
      elim (Bool-cases (is_empty a.spec.requested)) [
        | inl nothing ↦
            let same : some (record { world = w; application = fresh; outcome = ok 0 }) ≡ some r =
              ground arith in
            subst (IsGuarded a) (some-injective _ _ same) (inl refl)
        | inr asked ↦
            settle_cluster-IsGuarded fresh w (get_workload_cluster services fresh w) r
              (ground arith)
      ]
