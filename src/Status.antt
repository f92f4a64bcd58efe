-- ===== src/Status.antt =====
-- manager/controllers/app/fybrikapplication_conditions.go, and AnalyzeError of
-- fybrikapplication_controller.go: the status of an application. An index out of range, a missing
-- asset included, makes the whole result `none`.
pub mod Readiness
pub mod Settled
pub mod Initial
mod Tests
use mesh_for_data.Base.{
  String, ℕ, zero, suc, ◌==◌, ◌<>◌, if◌then◌else◌, and_then, map_some, is_empty, Bool, true, false,
  not, ◌||◌, Option, none, some, List, [], ◌∷◌, get_elem?,
}
use mesh_for_data.Base.Maps.{Map, insert, lookup}
use mesh_for_data.Base.Text.{join}
use mesh_for_data.Api.Taxonomy.{no_connection}
use mesh_for_data.Api.Application.{
  AssetState, Condition, ConditionStatus, ConditionType, DataContext, FybrikApplication,
  deny_condition, error_condition, is_false, is_true, ready_condition,
}

abbrev pub ready_index : ℕ
ready_index = 0

abbrev pub deny_index : ℕ
deny_index = 1

abbrev pub error_index : ℕ
error_index = 2

abbrev pub false_condition : ConditionType → Condition
false_condition type = record {
  type = type;
  status = is_false;
  message = "";
  observed_generation = 0;
}

-- `s == ConditionTrue`
abbrev pub holds : ConditionStatus → Bool
holds is_true = true
holds _ = false

-- `s == ConditionFalse`
abbrev pub fails : ConditionStatus → Bool
fails is_false = true
fails _ = false

-- The state that `resetAssetState` gives to an asset.
abbrev pub reset_state : AssetState
reset_state = record {
  conditions =
      false_condition ready_condition
      ∷ false_condition deny_condition
      ∷ false_condition error_condition
      ∷ [];
  cataloged_asset = "";
  endpoint = no_connection;
}

abbrev pub States : Type 0
States = Map AssetState

-- The map of the states; a nil map is read as an empty one.
abbrev pub states_of : Option States → States
states_of none = []
states_of (some m) = m

abbrev pub with_states : FybrikApplication → States → FybrikApplication
with_states a m = record a { status = record a.status { asset_states = some m } }

-- The loop of `initStatus` over the requested assets.
unfoldable pub reset_all : List DataContext → States → States
unfolding insert
reset_all [] m = m
reset_all (d ∷ rest) m = reset_all rest (insert d.data_set_id reset_state m)

unfoldable pub init_status : FybrikApplication → FybrikApplication
unfolding reset_all
init_status a = record a {
  status = record a.status {
    error_message = "";
    ready = is_empty a.spec.requested;
    asset_states = some (reset_all a.spec.requested []);
  };
}

-- `conditions[index] = c`
unfoldable pub set_at : List Condition → ℕ → Condition → Option (List Condition)
set_at [] index c = none
set_at (x ∷ rest) zero c = some (c ∷ rest)
set_at (x ∷ rest) (suc index) c = map_some (λ more. x ∷ more) (set_at rest index c)

-- `AssetStates[id].Conditions[index] = c`
unfoldable pub set_condition : States → String → ℕ → Condition → Option States
unfolding set_at insert lookup
set_condition m id index c =
    and_then (lookup id m) (λ s.
      map_some (λ cs. insert id (record s { conditions = cs }) m) (set_at s.conditions index c))

-- `AssetStates[id].Conditions[index]`
unfoldable pub condition : States → String → ℕ → Option Condition
unfolding lookup
condition m id index = and_then (lookup id m) (λ s. get_elem? s.conditions index)

unfoldable pub error_text : String → String → String
error_text id message =
    "An error was received for asset " <> id
    <> " . If the error persists, please contact an operator." <> "Error description: " <> message

unfoldable pub set_error_condition : States → String → String → Option States
unfolding set_condition error_text
set_error_condition m id message = set_condition m id error_index (record {
  type = error_condition;
  status = is_true;
  message = error_text id message;
  observed_generation = 0;
})

unfoldable pub set_deny_condition : States → String → String → Option States
unfolding set_condition
set_deny_condition m id message =
    set_condition m id deny_index (record {
      type = deny_condition;
      status = is_true;
      message = message;
      observed_generation = 0;
    })

unfoldable pub set_ready_condition : States → String → Option States
unfolding condition set_condition
set_ready_condition m id =
    and_then (condition m id ready_index)
      (λ c. set_condition m id ready_index (record c { status = is_true }))

-- The errors that mean that the asset is denied.
abbrev pub denies : String → Bool
denies e =
    e == "the asset does not exist"
    || e == "governance policies forbid access to the data"
    || e == "copy of the data is required but can not be done according to the governance policies"
    || e == "governance policies forbid writing of the data"
    || e == "the asset data store is not supported"

unfoldable pub analyze_error : States → String → Option String → Option States
unfolding set_deny_condition set_error_condition
analyze_error m id none = some m
analyze_error m id (some e) =
    if denies e then set_deny_condition m id e else set_error_condition m id e

-- Neither the deny nor the ready condition of the asset is settled. The second one is read only if the
-- first one is false.
unfoldable pub is_pending : List Condition → Option Bool
is_pending [] = some true
is_pending (c ∷ cs) = and_then (get_elem? (c ∷ cs) deny_index) (λ deny.
    if fails deny.status
    then map_some (λ ready. fails ready.status) (get_elem? (c ∷ cs) ready_index)
    else some false)

abbrev conditions_of : Option AssetState → List Condition
conditions_of none = []
conditions_of (some s) = s.conditions

-- The loop of `isReady`.
unfoldable pub all_settled : States → List DataContext → Option Bool
unfolding is_pending lookup
all_settled m [] = some true
all_settled m (d ∷ rest) =
    let later = all_settled m rest in
    and_then (is_pending (conditions_of (lookup d.data_set_id m)))
      (λ pending. if pending then some false else later)

abbrev nil_or_settled : Option States → List DataContext → Option Bool
nil_or_settled none requested = some false
nil_or_settled (some m) requested = all_settled m requested

unfoldable pub is_ready : FybrikApplication → Option Bool
unfolding all_settled
is_ready a =
    if is_empty a.spec.requested
    then some true
    else nil_or_settled a.status.asset_states a.spec.requested

-- The messages of the error conditions that hold.
unfoldable pub error_messages : States → Option (List String)
error_messages [] = some []
error_messages ((id, s) ∷ rest) =
    let later = error_messages rest in
    and_then (get_elem? s.conditions error_index)
      (λ c. map_some (λ more. if holds c.status then c.message ∷ more else more) later)

unfoldable pub get_error_messages : FybrikApplication → Option String
unfolding error_messages join
get_error_messages a =
    if not (a.status.error_message == "")
    then some a.status.error_message
    else map_some (join "\n") (error_messages (states_of a.status.asset_states))
