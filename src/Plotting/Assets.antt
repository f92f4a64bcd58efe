-- ===== src/Plotting/Assets.antt =====
-- What the loops of Plotting.antt make of the states of the assets.
use mesh_for_data.Base.{
  String, ◌≡◌, Bool, true, false, not, ◌&&◌, ◌||◌, Option, none, some, List, [], ◌∷◌, arith, eq_iff,
}
use mesh_for_data.Base.Maps.{Map, insert, lookup, lookup-insert}
use mesh_for_data.Api.Application.{ObservedState}
use mesh_for_data.Api.Blueprint.{Blueprint, BlueprintModule}
use mesh_for_data.Planner.Choice.{has_string}
use mesh_for_data.Plotting.{
  assets_of, asset_state, set_modules_not_ready, set_not_ready, update_assets,
  update_plotter_assets_state, update_states,
}

-- No module has said so far that the asset is not ready.
abbrev pub allows : Option ObservedState → Bool
allows none = true
allows (some s) = s.ready

-- Some of the modules handles the asset.
unfoldable pub is_handled : String → Map BlueprintModule → Bool
unfolding has_string
is_handled id [] = false
is_handled id ((name, m) ∷ rest) = has_string id m.asset_ids || is_handled id rest

-- Every state of a module that handles the asset is ready. A module without a state is not looked at.
unfoldable pub states_ready : String → Map BlueprintModule → Map ObservedState → Bool
unfolding has_string assets_of
states_ready id modules [] = true
states_ready id modules ((name, state) ∷ rest) =
    (not (has_string id (assets_of name modules)) || state.ready) && states_ready id modules rest

allows-asset_state :
    (state : ObservedState) (o : Option ObservedState)
    → allows (some (asset_state state o)) ≡ (allows o && state.ready)
allows-asset_state state none = ground arith
allows-asset_state state (some old) = ground arith

allows-update_assets :
    (state : ObservedState) (ids : List String) (m : Map ObservedState) (id : String)
    → allows (lookup id (update_assets state ids m))
      ≡ (allows (lookup id m) && (not (has_string id ids) || state.ready))
unfolding update_assets has_string
allows-update_assets state [] m id = ground arith
allows-update_assets state (i ∷ rest) m id = ground (
  arith,
  allows-update_assets state rest (insert i (asset_state state (lookup i m)) m) id,
  lookup-insert m i id (asset_state state (lookup i m)),
  allows-asset_state state (lookup i m),
  eq_iff i id,
  eq_iff id i,
)

allows-update_states :
    (modules : Map BlueprintModule) (states m : Map ObservedState) (id : String)
    → allows (lookup id (update_states modules states m))
      ≡ (allows (lookup id m) && states_ready id modules states)
unfolding update_states states_ready
allows-update_states modules [] m id = ground arith
allows-update_states modules ((name, state) ∷ rest) m id = ground (
  arith,
  allows-update_states modules rest (update_assets state (assets_of name modules) m) id,
  allows-update_assets state (assets_of name modules) m id,
)

-- After the states of a blueprint's modules were collected, no module has said that an asset is not
-- ready exactly if none had before and each state that the blueprint has for a module that handles the
-- asset is ready. A module for which the blueprint has no state makes no difference.
pub allows-update_plotter_assets_state :
    (m : Map ObservedState) (b : Blueprint) (id : String)
    → allows (lookup id (update_plotter_assets_state m b))
      ≡ (allows (lookup id m) && states_ready id b.spec.modules b.status.modules_state)
unfolding update_plotter_assets_state
allows-update_plotter_assets_state m b id =
    allows-update_states b.spec.modules b.status.modules_state m id

allows-set_not_ready :
    (message : String) (ids : List String) (m : Map ObservedState) (id : String)
    → allows (lookup id (set_not_ready message ids m))
      ≡ (allows (lookup id m) && not (has_string id ids))
unfolding set_not_ready has_string
allows-set_not_ready message [] m id = ground arith
allows-set_not_ready message (i ∷ rest) m id =
    let unready : ObservedState = record { ready = false; error = message } in
    ground (
      arith,
      allows-set_not_ready message rest (insert i unready m) id,
      lookup-insert m i id unready,
      eq_iff i id,
      eq_iff id i,
    )

pub allows-set_modules_not_ready :
    (message : String) (modules : Map BlueprintModule) (m : Map ObservedState) (id : String)
    → allows (lookup id (set_modules_not_ready message modules m))
      ≡ (allows (lookup id m) && not (is_handled id modules))
unfolding set_modules_not_ready is_handled
allows-set_modules_not_ready message [] m id = ground arith
allows-set_modules_not_ready message ((name, b) ∷ rest) m id = ground (
  arith,
  allows-set_modules_not_ready message rest (set_not_ready message b.asset_ids m) id,
  allows-set_not_ready message b.asset_ids m id,
)
