-- ===== src/Config/Copies.antt =====
-- What the planner makes of restrictions copied by `Restriction.DeepCopyInto` of
-- pkg/model/adminrules/model.go.
use mesh_for_data.Base.{String, ◌≡◌, refl, false, [], ◌∷◌, is_empty, arith}
use mesh_for_data.Base.Maps.{insert}
use mesh_for_data.Api.Taxonomy.{Cluster}
use mesh_for_data.Api.Rules.{Restriction}
use mesh_for_data.Config.{deep_copy, copy_into}
use mesh_for_data.Planner.{PlotterGenerator}
use mesh_for_data.Planner.Choice.{has_string, meets, meets_all}

module _ (p : PlotterGenerator) (cluster : Cluster) where
  meets_nothing : (key : String) → meets p cluster key [] ≡ false
  unfolding meets has_string
  meets_nothing key = ground arith

  meets_all-insert :
      (key : String) (r : Restriction) → meets_all p cluster (insert key [] r) ≡ false
  unfolding meets_all insert
  meets_all-insert key [] = ground (arith, meets_nothing key)
  meets_all-insert key ((k, values) ∷ rest) =
      ground (arith, meets_nothing key, meets_all-insert key rest)

  -- For the planner, a cluster meets a deep copy of restrictions exactly if these have no key at all,
  -- whatever values they name.
  pub meets_all-deep_copy : (r : Restriction) → meets_all p cluster (deep_copy r) ≡ is_empty r
  unfolding deep_copy meets_all copy_into
  meets_all-deep_copy [] = refl
  meets_all-deep_copy ((key, values) ∷ rest) = meets_all-insert key (deep_copy rest)
