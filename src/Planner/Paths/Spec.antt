-- ===== src/Planner/Paths/Spec.antt =====
-- What a data path is, with no search: a relation that the search of Planner/Paths.antt is compared
-- with.
use mesh_for_data.Base.{ℕ, String, ◌≡◌, true, none, some, List, [], ◌∷◌, ◌++◌, Memᴰ, get_elem?}
use mesh_for_data.Api.Module.{FybrikModule, ModuleCapability, ModuleInOut}
use mesh_for_data.Planner.{
  DataInfo, Node, PlotterGenerator, ResolvedEdge, supports_sink_interface,
  supports_source_interface,
}
use mesh_for_data.Planner.Paths.{allow_capability, edge_at, intermediate, unresolved}

module _ (p : PlotterGenerator) (item : DataInfo) where
  -- Capability `i` of a deployed module is allowed and writes to the interface of the sink.
  pub record Serves (sink : Node) (m : FybrikModule) (i : ℕ) (capability : ModuleCapability)
      : Type 0 where
    pub name : String
    pub deployed : Memᴰ (name, m) p.modules
    pub offered : get_elem? m.spec.capabilities i ≡ some capability
    pub allowed : allow_capability item capability.capability ≡ true
    pub reaches : supports_sink_interface (edge_at m i none none) sink ≡ true

  -- A path from the source to the sink: one capability that reads from the source and serves the
  -- sink, or one that serves the sink behind a path to one of its source interfaces.
  pub data IsDataPath (source : Node) : Node → List ResolvedEdge → Type 0 where
    direct :
        (sink : Node) (m : FybrikModule) (i : ℕ) (capability : ModuleCapability)
        (path : List ResolvedEdge)
        → Serves sink m i capability
        → supports_source_interface (edge_at m i none (some sink)) source ≡ true
        → path ≡ unresolved (edge_at m i (some source) (some sink)) ∷ []
        → IsDataPath source sink path
    extend :
        (sink : Node) (m : FybrikModule) (i : ℕ) (capability : ModuleCapability)
        (inter : ModuleInOut) (shorter path : List ResolvedEdge)
        → Serves sink m i capability
        → Memᴰ inter capability.supported_interfaces
        → IsDataPath source (intermediate inter) shorter
        → path ≡ shorter ++ unresolved (edge_at m i (some (intermediate inter)) (some sink)) ∷ []
        → IsDataPath source sink path
