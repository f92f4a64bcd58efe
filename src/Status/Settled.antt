-- ===== src/Status/Settled.antt =====
-- What `check_readiness` of Status.antt makes of an application whose plotter is ready.
use mesh_for_data.Base.{
  String, ◌==◌, ◌≡◌, refl, ◌∙◌, Bool-cases, true, false, ◌⊎◌, inl, inr, Option, some, List, [], ◌∷◌,
  All, All-map, arith, eq_refl, is_empty,
}
use mesh_for_data.Base.Maps.{insert, lookup, lookup-insert}
use mesh_for_data.Api.Application.{
  AssetState, Condition, DataContext, FybrikApplication, ObservedState, is_true,
}
use mesh_for_data.Status.{
  States, all_settled, condition, fails, holds, is_pending, is_ready, set_at, set_condition,
  set_ready_condition, with_states,
}
use mesh_for_data.Status.Readiness.{
  check_all, check_asset, check_readiness, check_with, ready_asset,
}

-- The asset has its three conditions.
abbrev pub HasConditions : States → String → Type 0
HasConditions m id =
    (s : AssetState) × (ready : Condition) × (deny : Condition) × (error : Condition) × (lookup id m
      ≡ some s)
    × (s.conditions ≡ ready ∷ deny ∷ error ∷ [])

-- Moreover, the deny or the ready condition is not false.
abbrev pub IsSettled : States → String → Type 0
IsSettled m id =
    (s : AssetState) × (ready : Condition) × (deny : Condition) × (error : Condition) × (lookup id m
      ≡ some s)
    × (s.conditions ≡ ready ∷ deny ∷ error ∷ [])
    × ((fails deny.status ≡ false) ⊎ (fails ready.status ≡ false))

all_settled-IsSettled :
    (m : States) (requested : List DataContext)
    → All (λ (d : DataContext). IsSettled m d.data_set_id) requested
    → all_settled m requested ≡ some true
unfolding all_settled is_pending
all_settled-IsSettled m [] h = refl
all_settled-IsSettled m (d ∷ rest) ((s, r, n, e, found, three, inl denied), others) =
    rw (found, three, denied) (all_settled-IsSettled m rest others)
all_settled-IsSettled m (d ∷ rest) ((s, r, n, e, found, three, inr ready), others) =
    elim (Bool-cases (fails n.status)) [
      | inl pending ↦ rw (found, three, pending, ready) (all_settled-IsSettled m rest others)
      | inr denied ↦ rw (found, three, denied) (all_settled-IsSettled m rest others)
    ]

-- The state of the asset with its ready condition set.
abbrev made_ready : AssetState → Condition → Condition → Condition → AssetState
made_ready s ready deny error = record s {
  conditions = record ready { status = is_true } ∷ deny ∷ error ∷ [];
}

-- What holds of assets by their states holds still where one asset is made ready.
module _ (m : States) (id : String) (s : AssetState) (ready deny error : Condition) where
  HasConditions-insert :
      (other : String)
      → HasConditions m other
      → HasConditions (insert id (made_ready s ready deny error) m) other
  HasConditions-insert other (t, r, n, e, found, three) =
      let looked = lookup-insert m id other (made_ready s ready deny error) in
      elim (Bool-cases (id == other)) [
        | inl same ↦ (
          made_ready s ready deny error,
          record ready { status = is_true },
          deny,
          error,
          looked ∙ rw same refl,
          refl,
        )
        | inr apart ↦ (t, r, n, e, looked ∙ rw apart found, three)
      ]

  IsSettled-insert :
      (other : String)
      → IsSettled m other
      → IsSettled (insert id (made_ready s ready deny error) m) other
  IsSettled-insert other (t, r, n, e, found, three, settled) =
      let looked = lookup-insert m id other (made_ready s ready deny error) in
      elim (Bool-cases (id == other)) [
        | inl same ↦ (
          made_ready s ready deny error,
          record ready { status = is_true },
          deny,
          error,
          looked ∙ rw same refl,
          refl,
          inr refl,
        )
        | inr apart ↦ (t, r, n, e, looked ∙ rw apart found, three, settled)
      ]

  IsSettled-insert_self : IsSettled (insert id (made_ready s ready deny error) m) id
  IsSettled-insert_self = (
    made_ready s ready deny error,
    record ready { status = is_true },
    deny,
    error,
    lookup-insert m id id (made_ready s ready deny error) ∙ rw (eq_refl id) refl,
    refl,
    inr refl,
  )

module _ {W : Type 0} (set_persistent : W → String → W × Option String) (a : FybrikApplication)
    (status : ObservedState) (ready_now : status.ready ≡ true) (no_error : status.error ≡ "") where
  -- What a round makes of the states.
  record Checked (d : DataContext) (w : W) (m : States) : Type 0 where
    states : States
    checked : check_asset set_persistent a status d w m ≡ some (w, states)
    settled : IsSettled states d.data_set_id
    kept : (id : String) → HasConditions m id → HasConditions states id
    still : (id : String) → IsSettled m id → IsSettled states id

  check_asset-Checked :
      (d : DataContext) (w : W) (m : States)
      → d.requirements.copy.catalog.catalog_id ≡ ""
      → HasConditions m d.data_set_id
      → Checked d w m
  unfolding check_asset ready_asset condition set_ready_condition set_condition set_at
  check_asset-Checked d w m plain (s, r, n, e, found, three) = elim (Bool-cases (holds n.status)) [
    | inl denied ↦ record {
      states = m;
      checked = rw (found, three, denied) refl;
      settled = (s, r, n, e, found, three, inl (ground arith));
      kept = λ id h. h;
      still = λ id h. h;
    }
    | inr allowed ↦ record {
      states = insert d.data_set_id (made_ready s r n e) m;
      checked = rw (found, three, allowed, no_error, ready_now, plain) refl;
      settled = IsSettled-insert_self m d.data_set_id s r n e;
      kept = HasConditions-insert m d.data_set_id s r n e;
      still = IsSettled-insert m d.data_set_id s r n e;
    }
  ]

  -- What the loop makes of the states.
  record CheckedAll (requested : List DataContext) (w : W) (m : States) : Type 0 where
    states : States
    checked : check_all set_persistent a status requested w m ≡ some (w, states)
    settled : All (λ (d : DataContext). IsSettled states d.data_set_id) requested
    still : (id : String) → IsSettled m id → IsSettled states id

  check_all_lem :
      (requested : List DataContext) (w : W) (m : States)
      → All (λ (d : DataContext). d.requirements.copy.catalog.catalog_id ≡ "") requested
      → All (λ (d : DataContext). HasConditions m d.data_set_id) requested
      → CheckedAll requested w m
  unfolding check_all
  check_all_lem [] w m plain h = record {
    states = m;
    checked = refl;
    settled = tt;
    still = λ id h. h;
  }
  check_all_lem (d ∷ rest) w m plain h =
      let one = check_asset-Checked d w m plain.0 h.0 in
      let others =
        All-map (λ (x : DataContext). HasConditions m x.data_set_id)
          (λ (x : DataContext). HasConditions one.states x.data_set_id) rest
          (λ x. one.kept x.data_set_id) h.1 in
      let more = check_all_lem rest w one.states plain.1 others in
      record {
        states = more.states;
        checked = rw one.checked more.checked;
        settled = (more.still d.data_set_id one.settled, more.settled);
        still = λ id k. more.still id (one.still id k);
      }

all_settled-is_ready :
    (a : FybrikApplication) (m : States)
    → all_settled m a.spec.requested ≡ some true
    → is_ready (with_states a m) ≡ some true
unfolding is_ready
all_settled-is_ready a m h = elim (Bool-cases (is_empty a.spec.requested)) [
  | inl nothing ↦ rw nothing refl
  | inr requested ↦ rw requested h
]

check_readiness_states :
    {W : Type 0} (set_persistent : W → String → W × Option String) (a : FybrikApplication)
    (status : ObservedState) (w : W) (m states : States)
    → a.status.asset_states ≡ some m
    → check_all set_persistent a status a.spec.requested w m ≡ some (w, states)
    → check_readiness set_persistent a status w ≡ some (w, with_states a states)
unfolding check_readiness check_with
check_readiness_states set_persistent a status w m states have checked = ground arith

-- If the plotter is ready without an error, no requested asset is to be registered in a catalog, and
-- each requested asset has its three conditions, then the check of the readiness returns, leaves the
-- storage as it is, and makes the application ready: each asset is denied or ready.
pub check_readiness-is_ready :
    {W : Type 0} (set_persistent : W → String → W × Option String) (a : FybrikApplication)
    (status : ObservedState) (w : W) (m : States)
    → status.ready ≡ true
    → status.error ≡ ""
    → a.status.asset_states ≡ some m
    → All (λ (d : DataContext). d.requirements.copy.catalog.catalog_id ≡ "") a.spec.requested
    → All (λ (d : DataContext). HasConditions m d.data_set_id) a.spec.requested
    → (checked : FybrikApplication) × (check_readiness set_persistent a status w
        ≡ some (w, checked))
      × (is_ready checked ≡ some true)
check_readiness-is_ready set_persistent a status w m ready_now no_error have plain conditions =
    let r =
      check_all_lem set_persistent a status ready_now no_error a.spec.requested w m plain
        conditions in
    (
      with_states a r.states,
      check_readiness_states set_persistent a status w m r.states have r.checked,
      all_settled-is_ready a r.states (all_settled-IsSettled r.states a.spec.requested r.settled),
    )
