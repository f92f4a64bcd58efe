-- ===== src/Planner/Paths/Complete.antt =====
-- Every data path within the limit is among the solutions that the search of Planner/Paths.antt
-- returns.
use mathlib.Core.List.Memᴰ
use mathlib.Core.Option.{some-injective}
use native.Mathlib.Nat.{add-zero, zero-add, add_assoc, add_comm}
use native.Mathlib.Numerals.{add-one}
use mesh_for_data.Base.{
  ℕ, zero, suc, ◌+◌, ◌≤◌, ◌<◌, max, String, lt→ltb, ◌≡◌, sym, ap, subst, ◌↔◌, true, some, none,
  List, [], ◌∷◌, ◌++◌, Memᴰ, get_elem?, length, length-append, arith,
}
use mesh_for_data.Base.Maps.{Map}
use mesh_for_data.Api.Module.{FybrikModule, ModuleCapability, ModuleInOut}
use mesh_for_data.Planner.{
  DataInfo, Edge, Node, PlotterGenerator, ResolvedEdge, Solution, supports_source_interface,
}
use mesh_for_data.Planner.Paths.{
  append_edge, capability_paths, edge_at, find_paths_within_limit, interface_paths, intermediate,
  module_paths, paths_by, unresolved,
}
use mesh_for_data.Planner.Paths.Spec.{IsDataPath, Serves, direct, extend}
use mesh_for_data.Planner.Paths.Sound.{find_paths_within_limit-IsDataPath}

abbrev as_solution : List ResolvedEdge → Solution
as_solution path = record { data_path = path }

mem-append_edge :
    (edge : Edge) (l : List Solution) {t : Solution}
    → Memᴰ t l
    → Memᴰ (as_solution (t.data_path ++ unresolved edge ∷ [])) (append_edge edge l)
unfolding append_edge
mem-append_edge edge [] m = absurd (Memᴰ.not-nil m)
mem-append_edge edge (x ∷ l) (Memᴰ.head e) =
    Memᴰ.head (ap (λ (t : Solution). as_solution (t.data_path ++ unresolved edge ∷ [])) e)
mem-append_edge edge (x ∷ l) (Memᴰ.tail m) = Memᴰ.tail (mem-append_edge edge l m)

module _ (p : PlotterGenerator) (item : DataInfo) (source : Node) where
  IsDataPath-pos :
      {sink : Node} {path : List ResolvedEdge}
      → IsDataPath p item source sink path
      → 1 ≤ length path
  IsDataPath-pos (direct sink m i c path serves reads e) = omega (arith, ap length e)
  IsDataPath-pos (extend sink m i c inter shorter path serves mem rest e) = omega (
    arith,
    ap length e,
    length-append shorter (unresolved (edge_at m i (some (intermediate inter)) (some sink)) ∷ []),
  )

  module _ (n : ℕ) (deeper : Node → List Solution) (sink : Node) (s : Solution) where
    mem-module_paths :
        (m : FybrikModule) (c : ModuleCapability) (i j : ℕ) (l : List ModuleCapability)
        → get_elem? l j ≡ some c
        → Memᴰ s (capability_paths p item source n deeper sink m (i + j) c)
        → Memᴰ s (module_paths p item source n deeper sink m i l)
    unfolding module_paths
    mem-module_paths m c i j [] e x = cc
    mem-module_paths m c i zero (d ∷ l) e x =
        Memᴰ.append_left (module_paths p item source n deeper sink m (i + 1) l) (
          subst (λ k. Memᴰ s (capability_paths p item source n deeper sink m i k))
            (sym (some-injective d c e)) (rw add-zero at x))
    mem-module_paths m c i (suc j) (d ∷ l) e x =
        Memᴰ.append_right (capability_paths p item source n deeper sink m i d)
          (mem-module_paths m c (i + 1) j l e (rw (add_assoc i 1 j, add_comm 1 j, add-one) x))

    mem-paths_by :
        (name : String) (m : FybrikModule) (modules : Map FybrikModule)
        → Memᴰ (name, m) modules
        → Memᴰ s (module_paths p item source n deeper sink m 0 m.spec.capabilities)
        → Memᴰ s (paths_by p item source n deeper sink modules)
    unfolding paths_by
    mem-paths_by name m [] d x = absurd (Memᴰ.not-nil d)
    mem-paths_by name m ((name', m') ∷ rest) (Memᴰ.head e) x = Memᴰ.append_left _ (
        subst
          (λ (k : FybrikModule).
            Memᴰ s (module_paths p item source n deeper sink k 0 k.spec.capabilities))
          (ap (λ (t : String × FybrikModule). t.1) e) x)
    mem-paths_by name m ((name', m') ∷ rest) (Memᴰ.tail d) x =
        Memᴰ.append_right (module_paths p item source n deeper sink m' 0 m'.spec.capabilities)
          (mem-paths_by name m rest d x)

    mem-Serves :
        (m : FybrikModule) (i : ℕ) (c : ModuleCapability)
        → Serves p item sink m i c
        → Memᴰ s (capability_paths p item source n deeper sink m i c)
        → Memᴰ s (paths_by p item source n deeper sink p.modules)
    mem-Serves m i c serves x =
        mem-paths_by serves.name m p.modules serves.deployed
          (mem-module_paths m c 0 i m.spec.capabilities serves.offered (rw zero-add x))

    mem-interface_paths :
        (m : FybrikModule) (i : ℕ) (inter : ModuleInOut) (l : List ModuleInOut)
        → Memᴰ inter l
        → Memᴰ s (
            append_edge
              (edge_at m i (some (intermediate inter)) (some sink))
              (deeper (intermediate inter)))
        → Memᴰ s (interface_paths p item source deeper sink m i l)
    unfolding interface_paths
    mem-interface_paths m i inter [] d x = absurd (Memᴰ.not-nil d)
    mem-interface_paths m i inter (j ∷ l) (Memᴰ.head e) x = Memᴰ.append_left _ (
        subst
          (λ (k : ModuleInOut). Memᴰ s (
            append_edge (edge_at m i (some (intermediate k)) (some sink))
              (deeper (intermediate k))))
          e x)
    mem-interface_paths m i inter (j ∷ l) (Memᴰ.tail d) x =
        Memᴰ.append_right
          (append_edge (edge_at m i (some (intermediate j)) (some sink)) (deeper (intermediate j)))
          (mem-interface_paths m i inter l d x)

    capability_paths-direct :
        (m : FybrikModule) (i : ℕ) (c : ModuleCapability)
        → Serves p item sink m i c
        → supports_source_interface (edge_at m i none (some sink)) source ≡ true
        → s ≡ as_solution (unresolved (edge_at m i (some source) (some sink)) ∷ [])
        → Memᴰ s (capability_paths p item source n deeper sink m i c)
    unfolding capability_paths
    capability_paths-direct m i c serves reads e =
        rw (serves.allowed, serves.reaches, reads) (Memᴰ.head e)

    capability_paths-extend :
        (m : FybrikModule) (i : ℕ) (c : ModuleCapability)
        → Serves p item sink m i c
        → 1 < n
        → Memᴰ s (interface_paths p item source deeper sink m i c.supported_interfaces)
        → Memᴰ s (capability_paths p item source n deeper sink m i c)
    unfolding capability_paths
    capability_paths-extend m i c serves big x =
        rw (serves.allowed, serves.reaches, lt→ltb 1 n big) (Memᴰ.append_right _ x)

  module _ (n : ℕ) (deeper : Node → List Solution)
      (complete : (sink : Node) (path : List ResolvedEdge)
        → IsDataPath p item source sink path
        → suc (length path) ≤ n
        → Memᴰ (as_solution path) (deeper sink)) where
    mem-by_IsDataPath :
        (sink : Node) (path : List ResolvedEdge)
        → IsDataPath p item source sink path
        → length path ≤ max 1 n
        → Memᴰ (as_solution path) (paths_by p item source n deeper sink p.modules)
    mem-by_IsDataPath sink path (direct _ m i c _ serves reads e) short =
        mem-Serves n deeper sink (as_solution path) m i c serves (
          capability_paths-direct n deeper sink (as_solution path) m i c serves reads
            (ap as_solution e))
    mem-by_IsDataPath sink path (extend _ m i c inter shorter _ serves mem rest e) short =
        let edge = edge_at m i (some (intermediate inter)) (some sink) in
        let longer : suc (length shorter) ≤ max 1 n =
          omega (arith, ap length e, length-append shorter (unresolved edge ∷ [])) in
        let big : 1 < n = omega (arith, IsDataPath-pos rest) in
        let x =
          mem-append_edge edge (deeper (intermediate inter))
            (complete (intermediate inter) shorter rest (omega arith)) in
        mem-Serves n deeper sink (as_solution path) m i c serves (
          capability_paths-extend n deeper sink (as_solution path) m i c serves big (
            mem-interface_paths n deeper sink (as_solution path) m i inter c.supported_interfaces
              mem
              (subst (λ l. Memᴰ (as_solution l) (append_edge edge (deeper (intermediate inter))))
                (sym e) x)))

  mem-find_paths_within_limit :
      (n : ℕ) (sink : Node) (path : List ResolvedEdge)
      → IsDataPath p item source sink path
      → length path ≤ max 1 n
      → Memᴰ (as_solution path) (find_paths_within_limit p item source n sink)
  unfolding find_paths_within_limit
  mem-find_paths_within_limit zero sink path d short =
      mem-by_IsDataPath 0 (λ _. []) (λ sink path d h. absurd (omega arith)) sink path d short
  mem-find_paths_within_limit (suc n) sink path d short =
      mem-by_IsDataPath (suc n) (find_paths_within_limit p item source n)
        (λ sink path d h. mem-find_paths_within_limit n sink path d (omega arith)) sink path d short

  -- The search with limit `n` returns exactly the data paths from the source to the sink that have
  -- at most `n` edges, or at most one edge where `n` is 0.
  pub find_paths_within_limit_iff :
      (n : ℕ) (sink : Node) (path : List ResolvedEdge)
      → Memᴰ (record { data_path = path }) (find_paths_within_limit p item source n sink)
        ↔ (IsDataPath p item source sink path × (length path ≤ max 1 n))
  find_paths_within_limit_iff n sink path = (
    λ m. find_paths_within_limit-IsDataPath p item source n sink (as_solution path) m,
    λ h. mem-find_paths_within_limit n sink path h.0 h.1,
  )
