-- ===== src/Status/Tests.antt =====
-- The theorems of Status at an application with one asset.
use mesh_for_data.Base.{Bool, String, ◌≡◌, refl, true, Option, none, some, [], ◌∷◌, All, is_empty}
use mesh_for_data.Base.Maps.{lookup}
use mesh_for_data.Api.Application.{
  DataContext, FybrikApplication, ObservedState, deny_condition, error_condition, ready_condition,
}
use mesh_for_data.Planner.Samples.{application}
use mesh_for_data.Status.{
  States, false_condition, get_error_messages, init_status, is_ready, reset_state, states_of,
}
use mesh_for_data.Status.Initial.{IsUndecided, init_status-IsUndecided}
use mesh_for_data.Status.Readiness.{check_readiness}
use mesh_for_data.Status.Settled.{HasConditions, check_readiness-is_ready}

abbrev states : States
states = ("asset-1", reset_state) ∷ []

abbrev started : FybrikApplication
started = record application { status = record application.status { asset_states = some states } }

abbrev ready : ObservedState
ready = record { ready = true; error = "" }

-- A storage without a state that makes every bucket persistent.
abbrev always : Bool → String → Bool × Option String
always w bucket = (w, none)

states-HasConditions : HasConditions states "asset-1"
unfolding lookup
states-HasConditions = (
  reset_state,
  false_condition ready_condition,
  false_condition deny_condition,
  false_condition error_condition,
  refl,
  refl,
)

check_readiness-is_ready_example :
    (checked : FybrikApplication) × (check_readiness always started ready true
      ≡ some (true, checked))
    × (is_ready checked ≡ some true)
check_readiness-is_ready_example =
    check_readiness-is_ready always started ready true states refl refl refl (refl, tt)
      (states-HasConditions, tt)

init_status-IsUndecided_example :
    All
      (λ (d : DataContext).
        IsUndecided (states_of (init_status application).status.asset_states) d.data_set_id)
      application.spec.requested
    × (get_error_messages (init_status application) ≡ some "")
    × ((init_status application).status.ready ≡ is_empty application.spec.requested)
    × (is_ready (init_status application) ≡ some (init_status application).status.ready)
init_status-IsUndecided_example = init_status-IsUndecided application
