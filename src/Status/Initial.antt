-- ===== src/Status/Initial.antt =====
-- What `init_status` of Status.antt makes of an application.
use mesh_for_data.Base.{
  String, ◌==◌, ◌≡◌, refl, ◌∙◌, Bool-cases, inl, inr, some, List, [], ◌∷◌, All, All-map, arith,
  eq_refl, is_empty,
}
use mesh_for_data.Base.Text.{join}
use mesh_for_data.Base.Maps.{insert, lookup, lookup-insert}
use mesh_for_data.Api.Application.{
  AssetState, DataContext, FybrikApplication, error_condition, deny_condition, ready_condition,
}
use mesh_for_data.Status.{
  States, all_settled, condition, deny_index, error_index, error_messages, false_condition,
  get_error_messages, ready_index, init_status, is_pending, is_ready, reset_all, reset_state,
  states_of,
}

-- The asset has the state of `reset_state`.
abbrev IsReset : States → String → Type 0
IsReset m id = lookup id m ≡ some reset_state

IsReset-insert :
    (m : States) (id other : String) → IsReset m other → IsReset (insert id reset_state m) other
IsReset-insert m id other h =
    lookup-insert m id other reset_state
    ∙ (elim (Bool-cases (id == other)) [ inl same ↦ rw same refl | inr apart ↦ rw apart h ])

reset_all-kept :
    (l : List DataContext) (m : States) (id : String) → IsReset m id → IsReset (reset_all l m) id
unfolding reset_all
reset_all-kept [] m id h = h
reset_all-kept (d ∷ rest) m id h =
    reset_all-kept rest (insert d.data_set_id reset_state m) id
      (IsReset-insert m d.data_set_id id h)

reset_all-IsReset :
    (l : List DataContext) (m : States)
    → All (λ (d : DataContext). IsReset (reset_all l m) d.data_set_id) l
unfolding reset_all
reset_all-IsReset [] m = tt
reset_all-IsReset (d ∷ rest) m =
    let next = insert d.data_set_id reset_state m in
    let here : IsReset next d.data_set_id =
      lookup-insert m d.data_set_id d.data_set_id reset_state ∙ rw (eq_refl d.data_set_id) refl in
    (reset_all-kept rest next d.data_set_id here, reset_all-IsReset rest next)

pending_first :
    (l : List DataContext) (m : States)
    → All (λ (d : DataContext). IsReset m d.data_set_id) l
    → all_settled m l ≡ some (is_empty l)
unfolding all_settled is_pending
pending_first [] m h = refl
pending_first (d ∷ rest) m h = rw h.0 refl

init_status_ready :
    (a : FybrikApplication)
    → all_settled (reset_all a.spec.requested []) a.spec.requested
      ≡ some (is_empty a.spec.requested)
    → is_ready (init_status a) ≡ some (is_empty a.spec.requested)
unfolding init_status is_ready
init_status_ready a h = ground arith

-- Every state of the map is that of `reset_state`.
abbrev AreReset : States → Type 0
AreReset m = All (λ (e : String × AssetState). e.1 ≡ reset_state) m

AreReset-insert : (id : String) (m : States) → AreReset m → AreReset (insert id reset_state m)
unfolding insert
AreReset-insert id [] h = (refl, tt)
AreReset-insert id ((k, s) ∷ rest) h = elim (Bool-cases (k == id)) [
  | inl same ↦ rw same (refl, h.1)
  | inr other ↦ rw other (h.0, AreReset-insert id rest h.1)
]

reset_all-AreReset : (l : List DataContext) (m : States) → AreReset m → AreReset (reset_all l m)
unfolding reset_all
reset_all-AreReset [] m h = h
reset_all-AreReset (d ∷ rest) m h =
    reset_all-AreReset rest (insert d.data_set_id reset_state m) (AreReset-insert d.data_set_id m h)

error_messages-AreReset : (m : States) → AreReset m → error_messages m ≡ some []
unfolding error_messages
error_messages-AreReset [] h = refl
error_messages-AreReset ((k, s) ∷ rest) h = rw (h.0, error_messages-AreReset rest h.1) refl

-- The asset has the three conditions, each at its index and false.
abbrev pub IsUndecided : States → String → Type 0
IsUndecided m id =
    (condition m id ready_index ≡ some (false_condition ready_condition))
    × (condition m id deny_index ≡ some (false_condition deny_condition))
    × (condition m id error_index ≡ some (false_condition error_condition))

IsReset-IsUndecided : (m : States) (id : String) → IsReset m id → IsUndecided m id
unfolding condition
IsReset-IsUndecided m id h = rw h (refl, refl, refl)

init_status_silent :
    (a : FybrikApplication)
    → error_messages (reset_all a.spec.requested []) ≡ some []
    → get_error_messages (init_status a) ≡ some ""
unfolding init_status get_error_messages join
init_status_silent a h = rw h refl

-- A new status has the ready, deny and error conditions of every requested asset at their indices,
-- all of them false, and no error messages. Its flag says that it is ready exactly if no asset is
-- requested, and `is_ready` agrees with the flag.
pub init_status-IsUndecided :
    (a : FybrikApplication)
    → All
        (λ (d : DataContext).
          IsUndecided (states_of (init_status a).status.asset_states) d.data_set_id)
        a.spec.requested
      × (get_error_messages (init_status a) ≡ some "")
      × ((init_status a).status.ready ≡ is_empty a.spec.requested)
      × (is_ready (init_status a) ≡ some (init_status a).status.ready)
unfolding init_status
init_status-IsUndecided a =
    let m = reset_all a.spec.requested [] in
    let reset = reset_all-IsReset a.spec.requested [] in
    (
      All-map (λ (d : DataContext). IsReset m d.data_set_id)
          (λ (d : DataContext). IsUndecided m d.data_set_id) a.spec.requested
          (λ d h. IsReset-IsUndecided m d.data_set_id h) reset,
      init_status_silent a (error_messages-AreReset m (reset_all-AreReset a.spec.requested [] tt)),
      refl,
      init_status_ready a (pending_first a.spec.requested m reset),
    )
