-- ===== src/Planner/Tests.antt =====
-- The theorems about the planner at the deployment of Planner/Samples.antt.
use mesh_for_data.Base.{
  ℕ, ◌==◌, ◌<◌, ◌≡◌, ◌↔◌, ◌≤◌, max, refl, subst, true, inl, inr, Bool-cases, some, List, [], ◌∷◌,
  Memᴰ, length, map, arith,
}
use mathlib.Core.Option.{some-injective}
use mesh_for_data.Base.Maps.{Map, lookup}
use mesh_for_data.Api.Module.{FybrikModule, module_type}
use mesh_for_data.Planner.Dependencies.{
  Dependents, IsAbove, IsRanked, check_dependencies, check_dependencies_total,
}
use mesh_for_data.Policy.{lookup_policy_decisions}
use mesh_for_data.Planner.{Edge, ResolvedEdge, supports_sink_interface, supports_source_interface}
use mesh_for_data.Planner.Paths.{edge_at, find_paths_within_limit, unresolved}
use mesh_for_data.Planner.Paths.Complete.{find_paths_within_limit_iff}
use mesh_for_data.Planner.Paths.Spec.{IsDataPath}
use mesh_for_data.Planner.Choice.{
  add_storage, capability_on_path, destination_node, find_paths, source_node,
}
use mesh_for_data.Planner.Choice.Found.{
  find_paths-IsDataPath, find_paths-IsPlaced, find_paths-IsStored, find_paths-performed,
  find_paths-required,
}
use mesh_for_data.Planner.Choice.Placement.{IsPlaced, IsStored}
use mesh_for_data.Planner.Choice.Resolve.{PerformedOn}
use mesh_for_data.Planner.Samples.{
  application, at_path, copier, generator, ingest_application, ingest_item, item, read_in_spain,
  reader, redact,
}

-- What evaluates the planner.
program : Unit {0}
unfolding find_paths at_path supports_sink_interface supports_source_interface capability_on_path
    source_node destination_node add_storage lookup_policy_decisions
program = tt

-- The one solution of a read: the read module, in the cluster in Spain, with the redaction.
abbrev read_edge : Edge
unfolding program
read_edge = edge_at reader 0 (some (source_node item)) (some (destination_node item application))

abbrev read_step : ResolvedEdge
unfolding program
read_step = record {
  edge = read_edge;
  actions = redact ∷ [];
  cluster = "south";
  storage_account_region = "";
}

found : find_paths generator 2 item application ≡ record { data_path = read_step ∷ [] } ∷ []
unfolding program
found = refl

-- The one solution of a copy, which is stored in Spain.
abbrev copy_edge : Edge
unfolding program
copy_edge =
    edge_at copier 0 (some (source_node ingest_item))
      (some (destination_node ingest_item ingest_application))

abbrev copy_step : ResolvedEdge
unfolding program
copy_step = record {
  edge = copy_edge;
  actions = redact ∷ [];
  cluster = "south";
  storage_account_region = "spain";
}

found_copy :
    find_paths generator 2 ingest_item ingest_application
    ≡ record { data_path = copy_step ∷ [] } ∷ []
unfolding program
found_copy = refl

read_found : Memᴰ (record { data_path = read_step ∷ [] }) (find_paths generator 2 item application)
read_found = rw found (Memᴰ.head refl)

copy_found :
    Memᴰ
      (record { data_path = copy_step ∷ [] })
      (find_paths generator 2 ingest_item ingest_application)
copy_found = rw found_copy (Memᴰ.head refl)

find_paths_within_limit_iff_example :
    Memᴰ
      (record { data_path = unresolved read_edge ∷ [] })
      (find_paths_within_limit generator item
        (source_node item)
        2
        (destination_node item application))
    ↔ (IsDataPath generator item
          (source_node item)
          (destination_node item application)
          (unresolved read_edge ∷ [])
        × (length (unresolved read_edge ∷ []) ≤ max 1 2))
find_paths_within_limit_iff_example =
    find_paths_within_limit_iff generator item (source_node item) 2
      (destination_node item application) (unresolved read_edge ∷ [])

find_paths-IsDataPath_example :
    (path : List ResolvedEdge) × IsDataPath generator item
      (source_node item)
      (destination_node item application)
      path
    × (length path ≤ max 1 2)
    × (map (λ (e : ResolvedEdge). e.edge) (read_step ∷ [])
        ≡ map (λ (e : ResolvedEdge). e.edge) path)
find_paths-IsDataPath_example =
    find_paths-IsDataPath generator item application 2 (record { data_path = read_step ∷ [] })
      read_found

find_paths-performed_example : PerformedOn generator item application redact (read_step ∷ [])
find_paths-performed_example =
    find_paths-performed generator item application 2 (record { data_path = read_step ∷ [] }) redact
      read_found (Memᴰ.head refl)

find_paths-IsPlaced_example : IsPlaced generator item read_step
find_paths-IsPlaced_example =
    find_paths-IsPlaced generator item application 2 (record { data_path = read_step ∷ [] })
      read_step read_found (Memᴰ.head refl)

find_paths-IsStored_example : IsStored generator ingest_item ingest_application copy_step
unfolding program
find_paths-IsStored_example =
    find_paths-IsStored generator ingest_item ingest_application 2
      (record { data_path = copy_step ∷ [] }) copy_step copy_found (Memᴰ.head refl) refl

find_paths-required_example : capability_on_path "read" (read_step ∷ []) ≡ true
unfolding program
find_paths-required_example =
    find_paths-required generator item application 2 (record { data_path = read_step ∷ [] }) "read"
      read_in_spain read_found (Memᴰ.head refl) refl

-- The read module depends on the copy module, and on one that is not there.
abbrev needy : FybrikModule
needy = record reader {
  spec = record reader.spec {
    dependencies =
        record { type = module_type; name = "copier" }
        ∷ record { type = module_type; name = "lost" }
        ∷ [];
  };
}

abbrev copiers : Map FybrikModule
copiers = ("copier", copier) ∷ []

abbrev dependency_count : FybrikModule → ℕ
dependency_count m = length m.spec.dependencies

copiers-IsRanked : IsRanked copiers dependency_count
unfolding lookup
copiers-IsRanked name n found = elim (Bool-cases ("copier" == name)) [
  | inl same ↦
      let e : some copier ≡ some n = ground arith in
      subst (IsAbove copiers dependency_count) (some-injective _ _ e) tt
  | inr other ↦ absurd (ground arith)
]

needy-IsAbove : IsAbove copiers dependency_count needy
unfolding lookup
needy-IsAbove = (
  λ n found depends.
      let e : some copier ≡ some n = found in
      subst (λ x. dependency_count x < 2) (some-injective _ _ e) (omega arith),
  (λ n found depends. absurd (ground (arith, found)), tt),
)

check_dependencies_total_example :
    (f : Dependents) × ((depth : ℕ) → 2 < depth → check_dependencies depth copiers needy ≡ some f)
check_dependencies_total_example =
    check_dependencies_total copiers dependency_count needy copiers-IsRanked needy-IsAbove

needy_checked : check_dependencies 3 copiers needy ≡ some (copier ∷ [], "lost" ∷ [])
unfolding check_dependencies
needy_checked = refl
