-- ===== src/Planner/Paths.antt =====
-- `findPathsWithinLimit` of manager/controllers/app/select_modules.go.
pub mod Spec
pub mod Sound
pub mod Complete
use mesh_for_data.Base.{
  ℕ, zero, suc, ◌+◌, ltb, if◌then◌else◌, Bool, true, false, not, Option, none, some, List, [], ◌∷◌,
  ◌++◌,
}
use mesh_for_data.Base.Maps.{lookup, Map}
use mesh_for_data.Api.Taxonomy.{Capability}
use mesh_for_data.Api.Module.{FybrikModule, ModuleCapability, ModuleInOut}
use mesh_for_data.Api.Rules.{Decision, status_false}
use mesh_for_data.Planner.{
  DataInfo, Edge, Node, PlotterGenerator, ResolvedEdge, Solution, supports_sink_interface,
  supports_source_interface,
}

-- Not forbidden. A capability with no decision has the zero decision, which allows it.
unfoldable pub may_deploy : Option Decision → Bool
may_deploy none = true
may_deploy (some d) = elim d.deploy [ status_false ↦ false | _ ↦ true ]

unfoldable pub allow_capability : DataInfo → Capability → Bool
unfolding lookup may_deploy
allow_capability item capability =
    may_deploy (lookup capability item.configuration.config_decisions)

-- Module restrictions are not validated yet: the source returns true.
unfoldable pub validate_module_restrictions : DataInfo → Edge → Bool
validate_module_restrictions item edge = true

abbrev pub edge_at : FybrikModule → ℕ → Option Node → Option Node → Edge
edge_at m i source sink = record {
  source = source;
  sink = sink;
  fybrik_module = m;
  capability_index = i;
}

-- `ResolvedEdge{Edge: edge}`
abbrev pub unresolved : Edge → ResolvedEdge
unresolved edge = record { edge = edge; actions = []; cluster = ""; storage_account_region = "" }

-- `&Node{Connection: inter.Source}`
abbrev pub intermediate : ModuleInOut → Node
intermediate inter = record { connection = inter.source; virtual = false }

-- `append(path, edge)` on each of the found paths.
unfoldable pub append_edge : Edge → List Solution → List Solution
append_edge edge [] = []
append_edge edge (s ∷ rest) =
    record { data_path = s.data_path ++ unresolved edge ∷ [] } ∷ append_edge edge rest

module _ (p : PlotterGenerator) (item : DataInfo) (source : Node) where
  -- The loop over the interfaces of the capability `i` of `m`, with the recursive call passed in.
  unfoldable pub interface_paths :
      (Node → List Solution) → Node → FybrikModule → ℕ → List ModuleInOut → List Solution
  unfolding append_edge
  interface_paths deeper sink m i [] = []
  interface_paths deeper sink m i (inter ∷ rest) =
      append_edge (edge_at m i (some (intermediate inter)) (some sink))
        (deeper (intermediate inter))
      ++ interface_paths deeper sink m i rest

  -- The body of the loop over capabilities.
  unfoldable pub capability_paths :
      ℕ → (Node → List Solution) → Node → FybrikModule → ℕ → ModuleCapability → List Solution
  unfolding allow_capability validate_module_restrictions interface_paths
  capability_paths n deeper sink m i capability =
      let edge = edge_at m i none none in
      let direct = unresolved (edge_at m i (some source) (some sink)) in
      if not (allow_capability item capability.capability)
      then []
      else if not (validate_module_restrictions item edge)
      then []
      else if not (supports_sink_interface edge sink)
      then []
      else (if supports_source_interface (edge_at m i none (some sink)) source
          then record { data_path = direct ∷ [] } ∷ []
          else [])
        ++ (if ltb 1 n then interface_paths deeper sink m i capability.supported_interfaces else [])

  unfoldable pub module_paths :
      ℕ → (Node → List Solution) → Node → FybrikModule → ℕ → List ModuleCapability → List Solution
  unfolding capability_paths
  module_paths n deeper sink m i [] = []
  module_paths n deeper sink m i (capability ∷ rest) =
      capability_paths n deeper sink m i capability ++ module_paths n deeper sink m (i + 1) rest

  unfoldable pub paths_by : ℕ → (Node → List Solution) → Node → Map FybrikModule → List Solution
  unfolding module_paths
  paths_by n deeper sink [] = []
  paths_by n deeper sink ((name, m) ∷ rest) =
      module_paths n deeper sink m 0 m.spec.capabilities ++ paths_by n deeper sink rest

  -- The limit `n` of the source is an integer. One that is not positive acts as 0 does here.
  unfoldable pub find_paths_within_limit : ℕ → Node → List Solution
  unfolding paths_by
  find_paths_within_limit zero sink = paths_by 0 (λ _. []) sink p.modules
  find_paths_within_limit (suc n) sink = paths_by (suc n) (find_paths_within_limit n) sink p.modules
