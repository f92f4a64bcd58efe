-- ===== src/Planner/Choice/Regions.antt =====
-- When `add_storage` of Planner/Choice.antt finds a storage account for an element.
use mathlib.Core.List.Memᴰ
use mesh_for_data.Base.{String, ◌==◌, ◌≡◌, false, some, List, [], Memᴰ, All}
use mesh_for_data.Api.Application.{FybrikApplication}
use mesh_for_data.Policy.{write_not_allowed}
use mesh_for_data.Planner.{DataInfo, PlotterGenerator, ResolvedEdge}
use mesh_for_data.Planner.Choice.Placement.{grant}

module _ (p : PlotterGenerator) (item : DataInfo) (application : FybrikApplication) where
  abbrev IsNamed : ResolvedEdge → Type 0
  IsNamed e = (e.storage_account_region == "") ≡ false

  abbrev pub AreNamed : List String → Type 0
  AreNamed regions = All (λ (r : String). (r == "") ≡ false) regions

  -- The policy manager fails for the region, with no denial.
  abbrev pub IsUnanswered : String → Type 0
  IsUnanswered r =
      (message : String) × (grant p item application r ≡ ([], some message))
      × ((message == write_not_allowed) ≡ false)
