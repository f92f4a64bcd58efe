-- ===== src/Plotting/Visits.antt =====
-- What the rounds of the loop over the clusters in Plotting.antt say of a plotter or an asset that
-- is ready after them.
use mesh_for_data.Base.{
  String, ◌≡◌, refl, subst, Bool, Bool-cases, true, false, ◌⊎◌, inl, inr, Option, Option-cases,
  none, some, [], ◌∷◌, All, arith, Result, ok, err,
}
use mesh_for_data.Base.Maps.{Map, lookup}
use mesh_for_data.Api.Blueprint.{Blueprint, BlueprintSpec, MetaBlueprint}
use mesh_for_data.Api.Plotter.{Plotter}
use mesh_for_data.Plotting.{
  ClusterManager, Progress, changed, create, new_blueprint, next, update, take_over, visit,
  visit_all, visit_answer, visit_remote,
}
use mesh_for_data.Plotting.Assets.{
  states_ready, allows, is_handled, allows-set_modules_not_ready,
  allows-update_plotter_assets_state,
}

module _ {W : Type 0} (manager : ClusterManager W)
    (same_spec : BlueprintSpec → BlueprintSpec → Bool) (plotter : Plotter) where
  visit_all_cons :
      (cluster : String) (spec : BlueprintSpec) (rest : Map BlueprintSpec) (w : W) (p : Progress)
      (last : W) (final : Progress)
      → visit_all manager same_spec plotter ((cluster, spec) ∷ rest) w p ≡ (last, final, next)
      → let (after, q, round) =
          visit manager same_spec plotter cluster spec (lookup cluster p.blueprints) w p in
        (round ≡ next) × (visit_all manager same_spec plotter rest after q ≡ (last, final, next))
  unfolding visit_all
  visit_all_cons cluster spec rest w p last final h = (ground arith, ground arith)

  -- What holds after a round holds before it, and gives a fact on the cluster.
  module _ (Q : Progress → Type 0) (Fact : String → BlueprintSpec → Type 0)
      (back : (cluster : String) (spec : BlueprintSpec) (o : Option MetaBlueprint) (w : W)
          (p : Progress)
        → (visit manager same_spec plotter cluster spec o w p).2 ≡ next
        → Q (visit manager same_spec plotter cluster spec o w p).1
        → Q p × Fact cluster spec) where
    pub visit_all-All :
        (wanted : Map BlueprintSpec) (w : W) (p : Progress) (last : W) (final : Progress)
        → visit_all manager same_spec plotter wanted w p ≡ (last, final, next)
        → Q final
        → Q p × All (λ (e : String × BlueprintSpec). Fact e.0 e.1) wanted
    visit_all-All [] w p last final h q =
        let same : final ≡ p = unfold visit_all in ground arith in (subst Q same q, tt)
    visit_all-All ((cluster, spec) ∷ rest) w p last final h q =
        let (on, more) = visit_all_cons cluster spec rest w p last final h in
        let r = visit manager same_spec plotter cluster spec (lookup cluster p.blueprints) w p in
        let (before, facts) = visit_all-All rest r.0 r.1 last final more q in
        let (first, fact) = back cluster spec (lookup cluster p.blueprints) w p on before in
        (first, (fact, facts))

  -- A state of the clusters at which the creation of the blueprint failed.
  abbrev pub CreationFails : String → BlueprintSpec → Type 0
  CreationFails cluster spec =
      (w : W) × (e : String) × ((manager.create_blueprint w cluster (new_blueprint plotter spec)).1
        ≡ some e)

  -- The manager found the blueprint of the cluster, of which the predicate holds.
  abbrev pub Found : String → (Blueprint → Type 0) → Type 0
  Found cluster P =
      (w : W) × (b : MetaBlueprint) × (remote : Blueprint) × (manager.get_blueprint w cluster
          b.namespace b.name
        ≡ ok (some remote))
      × P remote

  -- A remote blueprint that has the wanted spec and is ready.
  abbrev pub IsDone : BlueprintSpec → Blueprint → Type 0
  IsDone spec remote =
      (same_spec spec remote.spec ≡ true) × (remote.status.observed_state.ready ≡ true)

  visit_remote_ready :
      (cluster : String) (spec : BlueprintSpec) (remote : Blueprint) (w : W) (p : Progress)
      → (visit_remote manager same_spec plotter cluster spec remote w p).1.is_ready ≡ true
      → (p.is_ready ≡ true) × IsDone spec remote
  unfolding visit_remote update take_over
  visit_remote_ready cluster spec remote w p h = (ground arith, (ground arith, ground arith))

  create_ready :
      (cluster : String) (spec : BlueprintSpec) (w : W) (p : Progress)
      → (create manager same_spec plotter cluster spec w p).1.is_ready ≡ true
      → (p.is_ready ≡ true)
        × ((e : String) × ((manager.create_blueprint w cluster (new_blueprint plotter spec)).1
              ≡ some e))
  unfolding create
  create_ready cluster spec w p h =
      elim (Option-cases (manager.create_blueprint w cluster (new_blueprint plotter spec)).1) [
        | inl done ↦ absurd (ground arith)
        | inr (e, failed) ↦ (ground arith, (e, failed))
      ]

  -- What a plotter that is ready after a round says of the cluster.
  abbrev pub ReadyFact : String → BlueprintSpec → Type 0
  ReadyFact cluster spec = CreationFails cluster spec ⊎ Found cluster (IsDone spec)

  visit_answer_ready :
      (cluster : String) (spec : BlueprintSpec) (b : MetaBlueprint) (w : W) (p : Progress)
      (answer : Result (Option Blueprint))
      → manager.get_blueprint w cluster b.namespace b.name ≡ answer
      → (visit_answer manager same_spec plotter cluster spec answer w p).2 ≡ next
      → (visit_answer manager same_spec plotter cluster spec answer w p).1.is_ready ≡ true
      → (p.is_ready ≡ true) × ReadyFact cluster spec
  unfolding visit_answer
  visit_answer_ready cluster spec b w p (err e) asked on h = cc
  visit_answer_ready cluster spec b w p (ok none) asked on h = cc
  visit_answer_ready cluster spec b w p (ok (some remote)) asked on h =
      let (before, done) = visit_remote_ready cluster spec remote w p h in
      (before, inr (w, b, remote, asked, done))

  pub visit_ready :
      (cluster : String) (spec : BlueprintSpec) (o : Option MetaBlueprint) (w : W) (p : Progress)
      → (visit manager same_spec plotter cluster spec o w p).2 ≡ next
      → (visit manager same_spec plotter cluster spec o w p).1.is_ready ≡ true
      → (p.is_ready ≡ true) × ReadyFact cluster spec
  unfolding visit
  visit_ready cluster spec none w p on h =
      let (before, failure) = create_ready cluster spec w p h in
      (before, inl (w, failure.0, failure.1))
  visit_ready cluster spec (some b) w p on h =
      visit_answer_ready cluster spec b w p (manager.get_blueprint w cluster b.namespace b.name)
        refl on h

  -- Each state that the remote blueprint has for a module that handles the asset is ready.
  abbrev pub Serves : String → Blueprint → Type 0
  Serves id remote = states_ready id remote.spec.modules remote.status.modules_state ≡ true

  -- What an asset that is ready after a round says of the cluster.
  abbrev pub AssetFact : String → String → BlueprintSpec → Type 0
  AssetFact id cluster spec = (is_handled id spec.modules ≡ false) ⊎ Found cluster (Serves id)

  module _ (id : String) where
    visit_remote_asset :
        (cluster : String) (spec : BlueprintSpec) (remote : Blueprint) (w : W) (p : Progress)
        → allows
            (lookup id (visit_remote manager same_spec plotter cluster spec remote w p).1.assets)
          ≡ true
        → (allows (lookup id p.assets) ≡ true)
          × ((is_handled id spec.modules ≡ false) ⊎ Serves id remote)
    unfolding visit_remote update take_over
    visit_remote_asset cluster spec remote w p h =
        let kept = allows-update_plotter_assets_state p.assets remote id in
        elim (Bool-cases (same_spec spec remote.spec)) [
          | inl same ↦ (ground arith, inr (ground arith))
          | inr other ↦ elim (Bool-cases (changed manager same_spec plotter)) [
            | inr unchanged ↦ (ground arith, inr (ground arith))
            | inl new ↦
                elim (Option-cases
                  (manager.update_blueprint w cluster
                    (record remote { spec = spec; annotations = [] })).1) [
                      | inl done ↦
                          let e =
                            allows-set_modules_not_ready "Blueprint changes just applied"
                              spec.modules p.assets id in
                          (ground arith, inl (ground arith))
                      | inr (m, failed) ↦
                          let e = allows-set_modules_not_ready m spec.modules p.assets id in
                          (ground arith, inl (ground arith))
                    ]
          ]
        ]

    create_asset :
        (cluster : String) (spec : BlueprintSpec) (w : W) (p : Progress)
        → allows (lookup id (create manager same_spec plotter cluster spec w p).1.assets) ≡ true
        → (allows (lookup id p.assets) ≡ true) × (is_handled id spec.modules ≡ false)
    unfolding create
    create_asset cluster spec w p h =
        elim (Option-cases (manager.create_blueprint w cluster (new_blueprint plotter spec)).1) [
          | inl done ↦
              let e =
                allows-set_modules_not_ready "Blueprint just created" spec.modules p.assets id in
              (ground arith, ground arith)
          | inr (m, failed) ↦
              let e = allows-set_modules_not_ready m spec.modules p.assets id in
              (ground arith, ground arith)
        ]

    visit_answer_asset :
        (cluster : String) (spec : BlueprintSpec) (b : MetaBlueprint) (w : W) (p : Progress)
        (answer : Result (Option Blueprint))
        → manager.get_blueprint w cluster b.namespace b.name ≡ answer
        → (visit_answer manager same_spec plotter cluster spec answer w p).2 ≡ next
        → allows
            (lookup id (visit_answer manager same_spec plotter cluster spec answer w p).1.assets)
          ≡ true
        → (allows (lookup id p.assets) ≡ true) × AssetFact id cluster spec
    unfolding visit_answer
    visit_answer_asset cluster spec b w p (err e) asked on h = cc
    visit_answer_asset cluster spec b w p (ok none) asked on h =
        let e =
          allows-set_modules_not_ready "Could not yet find remote blueprint" spec.modules p.assets
            id in
        (ground arith, inl (ground arith))
    visit_answer_asset cluster spec b w p (ok (some remote)) asked on h =
        let (before, fact) = visit_remote_asset cluster spec remote w p h in
        (
          before,
          elim fact [ inl apart ↦ inl apart | inr serves ↦ inr (w, b, remote, asked, serves) ],
        )

    pub visit_asset :
        (cluster : String) (spec : BlueprintSpec) (o : Option MetaBlueprint) (w : W) (p : Progress)
        → (visit manager same_spec plotter cluster spec o w p).2 ≡ next
        → allows (lookup id (visit manager same_spec plotter cluster spec o w p).1.assets) ≡ true
        → (allows (lookup id p.assets) ≡ true) × AssetFact id cluster spec
    unfolding visit
    visit_asset cluster spec none w p on h =
        let (before, apart) = create_asset cluster spec w p h in (before, inl apart)
    visit_asset cluster spec (some b) w p on h =
        visit_answer_asset cluster spec b w p (manager.get_blueprint w cluster b.namespace b.name)
          refl on h
