-- ===== src/Assemble/Endpoints.antt =====
-- `setReadModulesEndpoints` of manager/controllers/app/fybrikapplication_controller.go. `none` is the
-- panic on a sequence of steps that is empty or whose last step has no parameters.
use mesh_for_data.Base.{
  String, if◌then◌else◌, Bool, true, false, Option, none, some, List, [], ◌∷◌, and_then,
}
use mesh_for_data.Base.Maps.{Map, get_or_zero, insert, lookup, or_zero}
use mesh_for_data.Api.Taxonomy.{
  Connection, DataFlow, ResourceDetails, copy_flow, delete_flow, no_connection, read_flow,
  write_flow,
}
use mesh_for_data.Api.Application.{AssetState, DataContext}
use mesh_for_data.Api.Plotter.{DataFlowStep, Flow, SubFlow}
use mesh_for_data.Status.{States}

-- `type == ReadFlow`
abbrev pub is_read : DataFlow → Bool
is_read read_flow = true
is_read write_flow = false
is_read delete_flow = false
is_read copy_flow = false

abbrev pub last_step : List DataFlowStep → Option DataFlowStep
last_step [] = none
last_step (s ∷ []) = some s
last_step (s ∷ t ∷ rest) = last_step (t ∷ rest)

unfoldable pub note_service : String → Option ResourceDetails → Map Connection → Map Connection
unfolding insert
note_service id none m = m
note_service id (some api) m = insert id api.connection m

unfoldable pub note_last : String → Option DataFlowStep → Map Connection → Option (Map Connection)
unfolding note_service
note_last id none m = none
note_last id (some s) m = and_then s.parameters (λ p. some (note_service id p.api m))

-- The loops over the sequences of a sub-flow, the sub-flows, and the flows.
unfoldable pub note_sequences :
    String → List (List DataFlowStep) → Map Connection → Option (Map Connection)
unfolding note_last
note_sequences id [] m = some m
note_sequences id (steps ∷ rest) m =
    and_then (note_last id (last_step steps) m) (λ next. note_sequences id rest next)

unfoldable pub note_sub_flows : String → List SubFlow → Map Connection → Option (Map Connection)
unfolding note_sequences
note_sub_flows id [] m = some m
note_sub_flows id (f ∷ rest) m =
    let later = note_sub_flows id rest m in
    let noted = note_sequences id f.steps m in
    if is_read f.flow_type then and_then noted (λ next. note_sub_flows id rest next) else later

unfoldable pub note_flows : List Flow → Map Connection → Option (Map Connection)
unfolding note_sub_flows
note_flows [] m = some m
note_flows (f ∷ rest) m =
    let later = note_flows rest m in
    let noted = note_sub_flows f.asset_id f.sub_flows m in
    if is_read f.flow_type then and_then noted (λ next. note_flows rest next) else later

-- The zero value of `AssetState`.
abbrev pub no_asset_state : AssetState
no_asset_state = record { conditions = []; cataloged_asset = ""; endpoint = no_connection }

-- The loop over the requested assets.
unfoldable pub set_endpoints : List DataContext → Map Connection → States → States
unfolding insert lookup
set_endpoints [] endpoints m = m
set_endpoints (d ∷ rest) endpoints m =
    let state = or_zero no_asset_state (lookup d.data_set_id m) in
    set_endpoints rest endpoints (
      insert d.data_set_id
        (record state { endpoint = get_or_zero no_connection d.data_set_id endpoints }) m)

unfoldable pub set_read_modules_endpoints : List DataContext → List Flow → States → Option States
unfolding note_flows set_endpoints
set_read_modules_endpoints requested flows m =
    and_then (note_flows flows []) (λ endpoints. some (set_endpoints requested endpoints m))
