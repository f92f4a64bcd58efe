-- ===== src/Planner/Choice/Placement.antt =====
-- What `resolve` of Planner/Choice.antt does to one element of a data path: its actions, its
-- storage and its cluster.
use mathlib.Core.List.{append-nil, append_assoc}
use mathlib.Core.Option.{some-injective}
use mesh_for_data.Base.{
  String, ◌==◌, eq_iff, eq_refl, ◌≡◌, refl, sym, ap, ◌∙◌, subst, true, false, Bool-cases, inl, inr,
  ◌⊎◌, some, List, [], ◌∷◌, ◌++◌, Memᴰ, All, All-map, arith, is_empty, Option, Option-cases, not,
  keep,
}
use mesh_for_data.Base.Text.{split_dots}
use mesh_for_data.Base.Maps.{lookup}
use mesh_for_data.Api.Taxonomy.{Action, Capability, Cluster}
use mesh_for_data.Api.Application.{FybrikApplication}
use mesh_for_data.Api.Rules.{Restriction}
use mesh_for_data.Policy.{lookup_policy_decisions}
use mesh_for_data.Planner.{
  DataInfo, Edge, PlotterGenerator, ResolvedEdge, capability_of, supports_governance_action,
  supports_governance_actions,
}
use mesh_for_data.Planner.Choice.{
  add_storage, assign_actions, choose_region, cluster_details, cluster_restrictions, find_cluster,
  has_string, is_virtual, meets, meets_all, transform, try_region, validate_cluster_restrictions,
  validate_cluster_restrictions_per_capability, write_denied, write_operation,
}

pub mem-has_string :
    (value : String) (values : List String) → has_string value values ≡ true → Memᴰ value values
unfolding has_string
mem-has_string value [] h = cc
mem-has_string value (v ∷ values) h = elim (Bool-cases (v == value)) [
  | inl e ↦ Memᴰ.head (sym ((eq_iff v value).0 e))
  | inr d ↦ Memᴰ.tail (mem-has_string value values (rw d at h))
]

-- The loop over the required actions splits them by whether the capability supports them.
pub assign_actions_lem :
    (edge : Edge) (actions assigned unsupported : List Action)
    → assign_actions edge actions assigned unsupported ≡ (
      assigned ++ keep (supports_governance_action edge) actions,
      unsupported ++ keep (λ a. not (supports_governance_action edge a)) actions,
    )
unfolding assign_actions keep
assign_actions_lem edge [] assigned unsupported = simp append-nil
assign_actions_lem edge (x ∷ actions) assigned unsupported =
    elim (Bool-cases (supports_governance_action edge x)) [
      | inl y ↦ rw y (simp (assign_actions_lem edge actions, append_assoc))
      | inr n ↦ rw n (simp (assign_actions_lem edge actions, append_assoc))
    ]

All-self : (l : List Action) → All (λ (a : Action). Memᴰ a l) l
All-self [] = tt
All-self (a ∷ l) = (
  Memᴰ.head refl,
  All-map (λ (b : Action). Memᴰ b l) (λ (b : Action). Memᴰ b (a ∷ l)) l (λ b m. Memᴰ.tail m)
      (All-self l),
)

module _ (p : PlotterGenerator) (item : DataInfo) where
  -- The cluster has, for each restriction on the capability, a property of that name with one of
  -- the restriction's values.
  abbrev pub Admits : Cluster → Capability → Type 0
  Admits cluster capability =
      All
        (λ (r : String × List String).
          (v : String) × (p.nested_string (cluster_details cluster) (split_dots r.0) ≡ some v)
          × Memᴰ v r.1)
        (cluster_restrictions (lookup capability item.configuration.config_decisions))

  meets_lem :
      (cluster : Cluster) (key : String) (values : List String)
      → meets p cluster key values ≡ true
      → (v : String) × (p.nested_string (cluster_details cluster) (split_dots key) ≡ some v)
        × Memᴰ v values
  unfolding meets
  meets_lem cluster key values h =
      elim (Option-cases (p.nested_string (cluster_details cluster) (split_dots key))) [
        | inl e ↦ absurd (ground arith)
        | inr (v, e) ↦ (v, e, mem-has_string v values (ground arith))
      ]

  meets_all-All :
      (cluster : Cluster) (r : Restriction)
      → meets_all p cluster r ≡ true
      → All
          (λ (r : String × List String).
            (v : String) × (p.nested_string (cluster_details cluster) (split_dots r.0) ≡ some v)
            × Memᴰ v r.1)
          r
  unfolding meets_all
  meets_all-All cluster [] h = tt
  meets_all-All cluster ((key, values) ∷ rest) h =
      (meets_lem cluster key values (ground arith), meets_all-All cluster rest (ground arith))

  validate_cluster-Admits :
      (cluster : Cluster) (capability : Capability)
      → validate_cluster_restrictions_per_capability p item capability cluster ≡ true
      → Admits cluster capability
  unfolding validate_cluster_restrictions_per_capability
  validate_cluster-Admits cluster capability h = meets_all-All cluster _ h

  -- The element runs in a cluster of the deployment that meets the restrictions on its capability
  -- and, where the element performs actions, those on transformations.
  abbrev pub IsPlaced : ResolvedEdge → Type 0
  IsPlaced e =
      (c : Cluster) × Memᴰ c p.clusters
      × (e.cluster ≡ c.name)
      × Admits c (capability_of e.edge).capability
      × ((is_empty e.actions ≡ true) ⊎ Admits c transform)

  validate_cluster_restrictions-true :
      (element : ResolvedEdge) (c : Cluster)
      → validate_cluster_restrictions p item element c ≡ true
      → (validate_cluster_restrictions_per_capability p item
            (capability_of element.edge).capability
            c
          ≡ true)
        × ((is_empty element.actions ≡ true)
            ⊎ (validate_cluster_restrictions_per_capability p item transform c ≡ true))
  unfolding validate_cluster_restrictions
  validate_cluster_restrictions-true element c h = ground arith

  pub find_cluster-IsPlaced :
      (element : ResolvedEdge) (clusters : List Cluster) {e : ResolvedEdge}
      → ((c : Cluster) → Memᴰ c clusters → Memᴰ c p.clusters)
      → find_cluster p item element clusters ≡ some e
      → IsPlaced e
  unfolding find_cluster
  find_cluster-IsPlaced element [] sub h = cc
  find_cluster-IsPlaced element (c ∷ rest) {e} sub h =
      elim (Bool-cases (validate_cluster_restrictions p item element c)) [
        | inl v ↦
            let (own, more) = validate_cluster_restrictions-true element c v in
            subst IsPlaced (some-injective _ _ (rw v at h)) (
              c,
              sub c (Memᴰ.head refl),
              refl,
              validate_cluster-Admits c _ own,
              elim more [
                | inl idle ↦ inl idle
                | inr moved ↦ inr (validate_cluster-Admits c transform moved)
              ],
            )
        | inr v ↦ find_cluster-IsPlaced element rest (λ d m. sub d (Memᴰ.tail m)) (rw v at h)
      ]

module _ (p : PlotterGenerator) (item : DataInfo) (application : FybrikApplication) where
  -- What the policy manager says of writing the data in a region.
  abbrev pub grant : String → List Action × Option String
  grant region =
      lookup_policy_decisions p.policy_manager item.context.data_set_id application
        (write_operation region)

  -- Writing in the region is not denied, and the capability performs the actions that it takes.
  abbrev pub IsAllowed : Edge → String → Type 0
  IsAllowed edge region =
      (write_denied (grant region).1 ≡ false)
      × (supports_governance_actions edge (grant region).0 ≡ true)

  abbrev pub stored_at : ResolvedEdge → String → ResolvedEdge
  stored_at element region = record element {
    actions = (grant region).0;
    storage_account_region = region;
  }

  -- The loop over the regions leaves the element, or stores it in an allowed region.
  abbrev Chosen : List String → ResolvedEdge → ResolvedEdge → Type 0
  Chosen regions old new =
      (new ≡ old)
      ⊎ ((region : String) × Memᴰ region regions
          × IsAllowed old.edge region
          × (new ≡ stored_at old region))

  pub try_region-cases :
      (element : ResolvedEdge) (region : String)
      → (try_region p item application element region ≡ element)
        ⊎ (IsAllowed element.edge region
            × (try_region p item application element region ≡ stored_at element region))
  unfolding try_region
  try_region-cases element region = elim (Bool-cases (write_denied (grant region).1)) [
    | inl d ↦ inl (rw d)
    | inr d ↦ elim (Bool-cases (supports_governance_actions element.edge (grant region).0)) [
      | inl y ↦ inr ((d, y), rw (d, y))
      | inr n ↦ inl (rw (d, n))
    ]
  ]

  Chosen-base :
      (all : List String) (old element : ResolvedEdge) (r : String)
      → Chosen all old element
      → (element.edge ≡ old.edge) × (stored_at element r ≡ stored_at old r)
  Chosen-base all old element r (inl e) =
      (ap (λ (x : ResolvedEdge). x.edge) e, ap (λ (x : ResolvedEdge). stored_at x r) e)
  Chosen-base all old element r (inr (_, _, _, e)) =
      (ap (λ (x : ResolvedEdge). x.edge) e, ap (λ (x : ResolvedEdge). stored_at x r) e)

  try_region-Chosen :
      (all : List String) (old element : ResolvedEdge) (r : String)
      → Memᴰ r all
      → Chosen all old element
      → Chosen all old (try_region p item application element r)
  try_region-Chosen all old element r m h = elim (try_region-cases element r) [
    | inl e ↦ subst (Chosen all old) (sym e) h
    | inr (allowed, e) ↦
        let (edge, stored) = Chosen-base all old element r h in
        inr (r, m, subst (λ x. IsAllowed x r) edge allowed, e ∙ stored)
  ]

  choose_region-Chosen :
      (old element : ResolvedEdge) (regions all : List String)
      → ((r : String) → Memᴰ r regions → Memᴰ r all)
      → Chosen all old element
      → Chosen all old (choose_region p item application element regions)
  unfolding choose_region
  choose_region-Chosen old element [] all sub h = h
  choose_region-Chosen old element (r ∷ rest) all sub h =
      choose_region-Chosen old (try_region p item application element r) rest all
        (λ s m. sub s (Memᴰ.tail m))
        (try_region-Chosen all old element r (sub r (Memᴰ.head refl)) h)

  -- An element whose sink is a data store is stored in a region of the deployment where writing is
  -- allowed, and performs the actions that writing there takes.
  abbrev pub IsStored : ResolvedEdge → Type 0
  IsStored e =
      Memᴰ e.storage_account_region p.storage_account_regions
      × IsAllowed e.edge e.storage_account_region
      × All (λ (a : Action). Memᴰ a e.actions) (grant e.storage_account_region).0

  add_storage-cases :
      (element stored : ResolvedEdge)
      → add_storage p item application element ≡ some stored
      → ((is_virtual element.sink ≡ true) × (stored ≡ element))
        ⊎ ((stored ≡ choose_region p item application element p.storage_account_regions)
            × ((stored.storage_account_region == "") ≡ false))
  unfolding add_storage
  add_storage-cases element stored h = ground arith

  abbrev pub StoredFrom : ResolvedEdge → ResolvedEdge → Type 0
  StoredFrom element stored =
      (stored.edge ≡ element.edge) × ((is_virtual element.sink ≡ true) ⊎ IsStored stored)

  pub add_storage-IsStored :
      (element stored : ResolvedEdge)
      → element.storage_account_region ≡ ""
      → add_storage p item application element ≡ some stored
      → StoredFrom element stored
  add_storage-IsStored element stored fresh h = elim (add_storage-cases element stored h) [
    | inl (v, e) ↦ subst (StoredFrom element) (sym e) (refl, inl v)
    | inr (e, named) ↦
        elim (subst (Chosen p.storage_account_regions element) (sym e) (
          choose_region-Chosen element element p.storage_account_regions p.storage_account_regions
            (λ r m. m) (inl refl))) [
              | inl same ↦ cc (
                ap (λ (x : ResolvedEdge). x.storage_account_region == "") same,
                ap (λ r. r == "") fresh,
                eq_refl "",
              )
              | inr (r, m, allowed, at) ↦
                  subst (StoredFrom element) (sym at) (refl, inr (m, allowed, All-self (grant r).0))
            ]
  ]
