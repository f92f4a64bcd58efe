-- ===== src/Planner/Choice/Resolve.antt =====
-- What `resolve_path` of Planner/Choice.antt makes of a data path, element by element.
use mathlib.Core.List.Memᴰ
use mathlib.Core.Option.{some-injective}
use mesh_for_data.Base.{
  String, ◌≡◌, refl, sym, ap, ◌∙◌, subst, true, not, Bool-cases, inl, inr, ◌⊎◌, some, Option-cases,
  List, [], ◌∷◌, map, Memᴰ, arith, mem-keep, All, All-map,
}
use mesh_for_data.Api.Taxonomy.{Action, Capability, Cluster}
use mesh_for_data.Api.Application.{FybrikApplication}
use mesh_for_data.Api.Rules.{Decision, DecisionPerCapabilityMap}
use mesh_for_data.Planner.{
  DataInfo, Edge, PlotterGenerator, ResolvedEdge, supports_governance_action,
}
use mesh_for_data.Planner.Choice.{
  add_storage, is_virtual, assign_actions, capability_on_path, find_cluster, must_deploy,
  required_on_path, resolve, resolve_path, validate_cluster_restrictions,
}
use mesh_for_data.Planner.Choice.Placement.{
  IsPlaced, IsStored, grant, add_storage-IsStored, assign_actions_lem, find_cluster-IsPlaced,
}

-- No element has a region yet, as in every path that the search returns.
abbrev pub IsFresh : List ResolvedEdge → Type 0
IsFresh path = All (λ (e : ResolvedEdge). e.storage_account_region ≡ "") path

module _ (p : PlotterGenerator) (item : DataInfo) (application : FybrikApplication) where
  find_cluster-same :
      (element : ResolvedEdge) (clusters : List Cluster) {e : ResolvedEdge}
      → find_cluster p item element clusters ≡ some e
      → (name : String) × (e ≡ record element { cluster = name })
  unfolding find_cluster
  find_cluster-same element [] h = cc
  find_cluster-same element (c ∷ rest) h =
      elim (Bool-cases (validate_cluster_restrictions p item element c)) [
        | inl y ↦ (c.name, sym (some-injective _ _ (rw y at h)))
        | inr n ↦ find_cluster-same element rest (rw n at h)
      ]

  -- The three steps of one round, with their results.
  record Round (required left : List Action) (element e : ResolvedEdge) : Type 0 where
    stored : ResolvedEdge
    storing : add_storage p item application (record element { actions = [] }) ≡ some stored
    placing :
        find_cluster p item
          (record stored { actions = (assign_actions stored.edge required stored.actions []).0 })
          p.clusters
        ≡ some e
    rest : left ≡ (assign_actions stored.edge required stored.actions []).1

  resolve-Round :
      (required left : List Action) (element e : ResolvedEdge)
      → resolve p item application required element ≡ some (e, left)
      → Round required left element e
  unfolding resolve
  resolve-Round required left element e h =
      elim (Option-cases (add_storage p item application (record element { actions = [] }))) [
        | inl none_stored ↦ absurd (ground arith)
        | inr (stored, s) ↦
            elim (Option-cases (
              find_cluster p item
                (record stored {
                  actions = (assign_actions stored.edge required stored.actions []).0;
                })
                p.clusters)) [
                  | inl none_placed ↦ absurd (ground arith)
                  | inr (placed, f) ↦ record {
                    stored = stored;
                    storing = s;
                    placing = f ∙ ground arith;
                    rest = ground arith;
                  }
                ]
      ]

  -- What one round makes of an element: it is placed and stored, and each required action is
  -- performed here or left.
  pub record IsResolved (required left : List Action) (element e : ResolvedEdge) : Type 0 where
    pub same_edge : e.edge ≡ element.edge
    pub placed : IsPlaced p item e
    pub stored : (is_virtual e.sink ≡ true) ⊎ IsStored p item application e
    pub performed :
        (a : Action)
        → Memᴰ a required
        → (Memᴰ a e.actions × (supports_governance_action e.edge a ≡ true)) ⊎ Memᴰ a left

  Round-IsResolved :
      (required left : List Action) (element e : ResolvedEdge)
      → element.storage_account_region ≡ ""
      → Round required left element e
      → IsResolved required left element e
  Round-IsResolved required left element e fresh r =
      let (edge, kept) =
        add_storage-IsStored p item application (record element { actions = [] }) r.stored fresh
          r.storing in
      let split = assign_actions_lem r.stored.edge required r.stored.actions [] in
      let (name, e_eq) = find_cluster-same _ p.clusters r.placing in
      record {
        same_edge = ap (λ (x : ResolvedEdge). x.edge) e_eq ∙ edge;
        placed = find_cluster-IsPlaced p item _ p.clusters (λ c m. m) r.placing;
        stored =
            subst (λ (x : ResolvedEdge). (is_virtual x.sink ≡ true) ⊎ IsStored p item application x)
              (sym e_eq)
              (elim kept [
                | inl v ↦ inl (ap (λ (x : Edge). is_virtual x.sink) edge ∙ v)
                | inr (region, allowed, all) ↦ inr (
                  region,
                  allowed,
                  All-map _ _ (grant p item application r.stored.storage_account_region).0
                      (λ a m.
                        subst (Memᴰ a) (sym (ap (λ (x : List Action × List Action). x.0) split))
                          (Memᴰ.append_left _ m))
                      all,
                )
              ]);
        performed = λ a m. elim (Bool-cases (supports_governance_action r.stored.edge a)) [
          | inl y ↦ inl (
              subst
                (λ (x : ResolvedEdge).
                  Memᴰ a x.actions × (supports_governance_action x.edge a ≡ true))
                (sym e_eq)
                (
                  subst (Memᴰ a) (sym (ap (λ (x : List Action × List Action). x.0) split))
                      (Memᴰ.append_right r.stored.actions (mem-keep _ required m y)),
                  y,
                ))
          | inr n ↦ inr (
              subst (Memᴰ a) (sym (r.rest ∙ ap (λ (x : List Action × List Action). x.1) split)) (
                mem-keep (λ b. not (supports_governance_action r.stored.edge b)) required m
                  (ap not n)))
        ];
      }

  -- Each element of the old path is resolved to the element of the new one that stands there.
  pub data Resolves
      : List Action → List Action → List ResolvedEdge → List ResolvedEdge → Type 0 where
    done : (required : List Action) → Resolves required required [] []
    round :
        (required mid left : List Action) (t e : ResolvedEdge) (ts es : List ResolvedEdge)
        → IsResolved required mid t e
        → Resolves mid left ts es
        → Resolves required left (t ∷ ts) (e ∷ es)

  pub resolve_path-Resolves :
      (required left : List Action) (ts es : List ResolvedEdge)
      → IsFresh ts
      → resolve_path p item application required ts ≡ some (es, left)
      → Resolves required left ts es
  unfolding resolve_path
  resolve_path-Resolves required left [] es fresh h =
      subst (λ (x : List ResolvedEdge × List Action). Resolves required x.1 [] x.0)
        (some-injective _ _ h) (done required)
  resolve_path-Resolves required left (t ∷ ts) es fresh h =
      elim (Option-cases (resolve p item application required t)) [
        | inl stop ↦ absurd (ground arith)
        | inr ((e, mid), r) ↦ elim (Option-cases (resolve_path p item application mid ts)) [
          | inl stop ↦ absurd (ground arith)
          | inr ((es', left'), q) ↦
              let same : some (e ∷ es', left') ≡ some (es, left) = ground arith in
              subst (λ (x : List ResolvedEdge × List Action). Resolves required x.1 (t ∷ ts) x.0)
                (some-injective _ _ same)
                (round required mid left' t e ts es'
                  (Round-IsResolved required mid t e fresh.0 (resolve-Round required mid t e r))
                  (resolve_path-Resolves mid left' ts es' fresh.1 q))
        ]
      ]

  pub Resolves-mem :
      {required left : List Action} {ts es : List ResolvedEdge} (e : ResolvedEdge)
      → Resolves required left ts es
      → Memᴰ e es
      → IsPlaced p item e × ((is_virtual e.sink ≡ true) ⊎ IsStored p item application e)
  Resolves-mem e (done _) m = absurd (Memᴰ.not-nil m)
  Resolves-mem e (round _ _ _ t x ts es r rest) m = elim (Memᴰ.cases_cons m) [
    | inl i ↦
        subst
          (λ (y : ResolvedEdge).
            IsPlaced p item y × ((is_virtual y.sink ≡ true) ⊎ IsStored p item application y))
          (sym i) (r.placed, r.stored)
    | inr k ↦ Resolves-mem e rest k
  ]

  -- An element of the path performs the action, and its capability supports it.
  abbrev pub PerformedOn : Action → List ResolvedEdge → Type 0
  PerformedOn a path =
      (e : ResolvedEdge) × Memᴰ e path
      × Memᴰ a e.actions
      × (supports_governance_action e.edge a ≡ true)

  pub Resolves-performed :
      {required left : List Action} {ts es : List ResolvedEdge} (a : Action)
      → Resolves required left ts es
      → Memᴰ a required
      → PerformedOn a es ⊎ Memᴰ a left
  Resolves-performed a (done _) m = inr m
  Resolves-performed a (round _ _ _ t x ts es r rest) m = elim (r.performed a m) [
    | inl (here, y) ↦ inl (x, Memᴰ.head refl, here, y)
    | inr later ↦ elim (Resolves-performed a rest later) [
      | inl (e, i, j, y) ↦ inl (e, Memᴰ.tail i, j, y)
      | inr k ↦ inr k
    ]
  ]

  pub Resolves-edges :
      {required left : List Action} {ts es : List ResolvedEdge}
      → Resolves required left ts es
      → map (λ (e : ResolvedEdge). e.edge) es ≡ map (λ (e : ResolvedEdge). e.edge) ts
  Resolves-edges (done _) = refl
  Resolves-edges (round _ _ _ t e ts es r rest) = cc (r.same_edge, Resolves-edges rest)

  pub required_on_path-mem :
      (path : List ResolvedEdge) (decisions : DecisionPerCapabilityMap)
      → required_on_path path decisions ≡ true
      → (capability : Capability) (d : Decision) → Memᴰ (capability, d) decisions
      → must_deploy d ≡ true
      → capability_on_path capability path ≡ true
  unfolding required_on_path
  required_on_path-mem path [] h c d m k = absurd (Memᴰ.not-nil m)
  required_on_path-mem path ((c', d') ∷ rest) h c d (Memᴰ.head e) k = ground arith
  required_on_path-mem path ((c', d') ∷ rest) h c d (Memᴰ.tail m) k =
      required_on_path-mem path rest (ground arith) c d m k
