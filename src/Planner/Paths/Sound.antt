-- ===== src/Planner/Paths/Sound.antt =====
-- Every path that the search of Planner/Paths.antt returns is a data path within the limit.
use mathlib.Core.List.Memᴰ
use mesh_for_data.Base.{
  ℕ, zero, suc, ◌+◌, ◌≤◌, max, String, ltb, ◌≡◌, refl, ap, inl, inr, some, none, List, [], ◌∷◌,
  ◌++◌, Memᴰ, get_elem?, length, length-append, arith, ltb→lt, mem-if, mem-if_not, if◌then◌else◌,
}
use native.Mathlib.Nat.{add-zero, zero-add, add_assoc, add_comm}
use native.Mathlib.Numerals.{add-one}
use mesh_for_data.Base.Maps.{Map}
use mesh_for_data.Api.Module.{FybrikModule, ModuleCapability, ModuleInOut}
use mesh_for_data.Planner.{
  DataInfo, Node, PlotterGenerator, Solution, Edge, supports_sink_interface,
  supports_source_interface,
}
use mesh_for_data.Planner.Paths.{
  allow_capability, append_edge, capability_paths, edge_at, find_paths_within_limit,
  interface_paths, intermediate, module_paths, paths_by, unresolved, validate_module_restrictions,
}
use mesh_for_data.Planner.Paths.Spec.{IsDataPath, Serves, direct, extend}

append_edge-mem :
    (edge : Edge) (l : List Solution) {s : Solution}
    → Memᴰ s (append_edge edge l)
    → (t : Solution) × Memᴰ t l × (s.data_path ≡ t.data_path ++ unresolved edge ∷ [])
unfolding append_edge
append_edge-mem edge [] m = absurd (Memᴰ.not-nil m)
append_edge-mem edge (t ∷ l) (Memᴰ.head e) =
    (t, Memᴰ.head refl, ap (λ (x : Solution). x.data_path) e)
append_edge-mem edge (t ∷ l) (Memᴰ.tail m) =
    let (t', m', e) = append_edge-mem edge l m in (t', Memᴰ.tail m', e)

module _ (p : PlotterGenerator) (item : DataInfo) (source : Node) where
  -- A solution is a data path to the sink of at most `bound` edges.
  abbrev pub IsWithin : ℕ → Node → Solution → Type 0
  IsWithin bound sink s = IsDataPath p item source sink s.data_path × (length s.data_path ≤ bound)

  module _ (n : ℕ) (deeper : Node → List Solution)
      (sound : (sink : Node) (s : Solution)
        → 2 ≤ n
        → Memᴰ s (deeper sink)
        → suc (length s.data_path) ≤ n × IsDataPath p item source sink s.data_path) where
    interface_paths-IsDataPath :
        (sink : Node) (m : FybrikModule) (i : ℕ) (capability : ModuleCapability)
        → (l : List ModuleInOut)
        → ((inter : ModuleInOut) → Memᴰ inter l → Memᴰ inter capability.supported_interfaces)
        → Serves p item sink m i capability
        → 2 ≤ n
        → (s : Solution) → Memᴰ s (interface_paths p item source deeper sink m i l)
        → IsWithin (max 1 n) sink s
    unfolding interface_paths
    interface_paths-IsDataPath sink m i capability [] sub serves big s x = absurd (Memᴰ.not-nil x)
    interface_paths-IsDataPath sink m i capability (inter ∷ l) sub serves big s x =
        elim (Memᴰ.append_cases
          (append_edge (edge_at m i (some (intermediate inter)) (some sink))
            (deeper (intermediate inter)))
          x) [
            | inl here ↦
                let edge = edge_at m i (some (intermediate inter)) (some sink) in
                let (t, mt, e) = append_edge-mem edge _ here in
                let (short, path) = sound (intermediate inter) t big mt in
                (
                  extend sink m i capability inter t.data_path s.data_path serves
                      (sub inter (Memᴰ.head refl)) path e,
                  omega
                      (arith, ap length e, length-append t.data_path (unresolved edge ∷ []), short),
                )
            | inr there ↦
                interface_paths-IsDataPath sink m i capability l (λ j mj. sub j (Memᴰ.tail mj))
                  serves big s there
          ]

    capability_paths-IsDataPath :
        (sink : Node) (name : String) (m : FybrikModule) (i : ℕ) (capability : ModuleCapability)
        → Memᴰ (name, m) p.modules
        → get_elem? m.spec.capabilities i ≡ some capability
        → (s : Solution) → Memᴰ s (capability_paths p item source n deeper sink m i capability)
        → IsWithin (max 1 n) sink s
    unfolding capability_paths
    capability_paths-IsDataPath sink name m i capability deployed offered s x =
        let edge = edge_at m i none none in
        let direct_edge = unresolved (edge_at m i (some source) (some sink)) in
        let (allowed, x₁) = mem-if_not (allow_capability item capability.capability) x in
        let (_, x₂) = mem-if_not (validate_module_restrictions item edge) x₁ in
        let (reaches, x₃) = mem-if_not (supports_sink_interface edge sink) x₂ in
        let serves : Serves p item sink m i capability = record {
          name = name;
          deployed = deployed;
          offered = offered;
          allowed = allowed;
          reaches = reaches;
        } in
        elim (Memᴰ.append_cases
          (if supports_source_interface (edge_at m i none (some sink)) source
            then record { data_path = direct_edge ∷ [] } ∷ []
            else [])
          x₃) [
            | inl here ↦
                let (reads, one) =
                  mem-if (supports_source_interface (edge_at m i none (some sink)) source) here in
                let e : s.data_path ≡ direct_edge ∷ [] =
                  ap (λ (t : Solution). t.data_path) (Memᴰ.eq_of_singleton one) in
                (direct sink m i capability s.data_path serves reads e, omega (arith, ap length e))
            | inr there ↦
                let (big, longer) = mem-if (ltb 1 n) there in
                interface_paths-IsDataPath sink m i capability capability.supported_interfaces
                  (λ j mj. mj) serves (ltb→lt 1 n big) s longer
          ]

    module_paths-IsDataPath :
        (sink : Node) (name : String) (m : FybrikModule)
        → Memᴰ (name, m) p.modules
        → (i : ℕ) (l : List ModuleCapability)
        → ((j : ℕ) (c : ModuleCapability)
            → get_elem? l j ≡ some c
            → get_elem? m.spec.capabilities (i + j) ≡ some c)
        → (s : Solution) → Memᴰ s (module_paths p item source n deeper sink m i l)
        → IsWithin (max 1 n) sink s
    unfolding module_paths
    module_paths-IsDataPath sink name m deployed i [] offered s x = absurd (Memᴰ.not-nil x)
    module_paths-IsDataPath sink name m deployed i (c ∷ l) offered s x =
        elim (Memᴰ.append_cases (capability_paths p item source n deeper sink m i c) x) [
          | inl here ↦
              capability_paths-IsDataPath sink name m i c deployed
                (rw add-zero at (offered 0 c refl)) s here
          | inr there ↦
              module_paths-IsDataPath sink name m deployed (i + 1) l
                (λ j d e. rw (add_assoc i 1 j, add_comm 1 j, add-one) (offered (suc j) d e)) s there
        ]

    paths_by-IsDataPath :
        (sink : Node) (modules : Map FybrikModule)
        → ((e : String × FybrikModule) → Memᴰ e modules → Memᴰ e p.modules)
        → (s : Solution) → Memᴰ s (paths_by p item source n deeper sink modules)
        → IsWithin (max 1 n) sink s
    unfolding paths_by
    paths_by-IsDataPath sink [] sub s x = absurd (Memᴰ.not-nil x)
    paths_by-IsDataPath sink ((name, m) ∷ rest) sub s x =
        elim (Memᴰ.append_cases (module_paths p item source n deeper sink m 0 m.spec.capabilities)
          x) [
            | inl here ↦
                module_paths-IsDataPath sink name m (sub (name, m) (Memᴰ.head refl)) 0
                  m.spec.capabilities (λ j c e. rw zero-add e) s here
            | inr there ↦ paths_by-IsDataPath sink rest (λ e me. sub e (Memᴰ.tail me)) s there
          ]

  -- Every solution that the search with limit `n` returns is a data path from the source to the
  -- sink, with at most `n` edges, or one where `n` is 0.
  pub find_paths_within_limit-IsDataPath :
      (n : ℕ) (sink : Node) (s : Solution)
      → Memᴰ s (find_paths_within_limit p item source n sink)
      → IsDataPath p item source sink s.data_path × (length s.data_path ≤ max 1 n)
  unfolding find_paths_within_limit
  find_paths_within_limit-IsDataPath zero sink s x =
      paths_by-IsDataPath 0 (λ _. []) (λ sink s big m. absurd (Memᴰ.not-nil m)) sink p.modules
        (λ e me. me) s x
  find_paths_within_limit-IsDataPath (suc n) sink s x =
      paths_by-IsDataPath (suc n) (find_paths_within_limit p item source n)
        (λ sink s big m.
          let (path, short) = find_paths_within_limit-IsDataPath n sink s m in (omega arith, path))
        sink p.modules (λ e me. me) s x
