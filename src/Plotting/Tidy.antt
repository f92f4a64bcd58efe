-- ===== src/Plotting/Tidy.antt =====
-- What the loop of Plotting/Reconcile.antt that deletes blueprints leaves.
use mesh_for_data.Base.{
  String, ◌==◌, ◌≡◌, refl, subst, sym, Bool-cases, true, false, ◌⊎◌, inl, inr, is_some, Option,
  none, some, List, [], ◌∷◌, ◌++◌, arith, eq_iff,
}
use mesh_for_data.Base.Maps.{Map, delete, has, lookup, lookup-delete}
use mesh_for_data.Api.Blueprint.{BlueprintSpec, MetaBlueprint}
use mesh_for_data.Plotting.{ClusterManager, Progress}
use mesh_for_data.Plotting.Reconcile.{deletion_errors, is_gone, tidy}

append_one : (xs : List String) (e : String) → xs ++ e ∷ [] ≡ [] → ⊥
append_one [] e h = cc
append_one (x ∷ xs) e h = cc

failed_error :
    (o : Option String) (errors : List String)
    → is_gone o ≡ false
    → errors ++ deletion_errors o ≡ []
    → ⊥
unfolding is_gone
failed_error none errors h k = cc
failed_error (some e) errors h k = append_one errors e k

not_there {ℓ} : {A : Type ℓ} (o : Option A) → is_some o ≡ false → o ≡ none
not_there none h = refl
not_there (some a) h = cc

module _ {W : Type 0} (manager : ClusterManager W) (wanted : Map BlueprintSpec) where
  pub tidy_kept :
      (l : Map MetaBlueprint) (w : W) (p : Progress)
      → let q = (tidy manager wanted l w p).1 in
        (q.is_ready ≡ p.is_ready) × (q.assets ≡ p.assets) × (q.error ≡ p.error)
  unfolding tidy
  tidy_kept [] w p = (refl, refl, refl)
  tidy_kept ((cluster, b) ∷ rest) w p =
      let r = manager.delete_blueprint w cluster b.namespace b.name in
      let one = tidy_kept rest w p in
      let two = tidy_kept rest r.0 (record p { blueprints = delete cluster p.blueprints }) in
      let three = tidy_kept rest r.0 (record p { errors = p.errors ++ deletion_errors r.1 }) in
      (ground arith, ground arith, ground arith)

  tidy_stays :
      (cluster : String) (l : Map MetaBlueprint) (w : W) (p : Progress)
      → lookup cluster p.blueprints ≡ none
      → lookup cluster (tidy manager wanted l w p).1.blueprints ≡ none
  unfolding tidy
  tidy_stays cluster [] w p h = h
  tidy_stays cluster ((c, b) ∷ rest) w p h =
      let r = manager.delete_blueprint w c b.namespace b.name in
      let one = tidy_stays cluster rest w p h in
      let d = lookup-delete p.blueprints c cluster in
      let gone : lookup cluster (delete c p.blueprints) ≡ none = ground arith in
      let two =
        tidy_stays cluster rest r.0 (record p { blueprints = delete c p.blueprints }) gone in
      let three =
        tidy_stays cluster rest r.0 (record p { errors = p.errors ++ deletion_errors r.1 }) h in
      ground arith

  tidy_errors :
      (l : Map MetaBlueprint) (w : W) (p : Progress)
      → (tidy manager wanted l w p).1.errors ≡ []
      → p.errors ≡ []
  unfolding tidy
  tidy_errors [] w p h = h
  tidy_errors ((c, b) ∷ rest) w p h =
      let r = manager.delete_blueprint w c b.namespace b.name in
      elim (Bool-cases (has c wanted)) [
        | inl asked ↦ tidy_errors rest w p (ground arith)
        | inr apart ↦ elim (Bool-cases (is_gone r.1)) [
          | inl gone ↦
              tidy_errors rest r.0 (record p { blueprints = delete c p.blueprints }) (ground arith)
          | inr stays ↦ absurd (
              failed_error r.1 p.errors stays (
                tidy_errors rest r.0 (record p { errors = p.errors ++ deletion_errors r.1 })
                  (ground arith)))
        ]
      ]

  tidy_removes :
      (cluster : String) (l : Map MetaBlueprint) (w : W) (p : Progress)
      → has cluster wanted ≡ false
      → has cluster l ≡ true
      → (tidy manager wanted l w p).1.errors ≡ []
      → lookup cluster (tidy manager wanted l w p).1.blueprints ≡ none
  unfolding tidy lookup
  tidy_removes cluster [] w p apart h e = cc
  tidy_removes cluster ((c, b) ∷ rest) w p apart h e =
      let r = manager.delete_blueprint w c b.namespace b.name in
      let later = record p { blueprints = delete c p.blueprints } in
      let worse = record p { errors = p.errors ++ deletion_errors r.1 } in
      elim (Bool-cases (c == cluster)) [
        | inr other ↦ elim (Bool-cases (has c wanted)) [
          | inl asked ↦
              ground (arith, tidy_removes cluster rest w p apart (ground arith) (ground arith))
          | inr lacking ↦ elim (Bool-cases (is_gone r.1)) [
            | inl gone ↦
                let i = tidy_removes cluster rest r.0 later apart (ground arith) (ground arith) in
                ground arith
            | inr stays ↦
                let i = tidy_removes cluster rest r.0 worse apart (ground arith) (ground arith) in
                ground arith
          ]
        ]
        | inl same ↦
            let k : has c wanted ≡ false =
              subst (λ x. has x wanted ≡ false) (sym ((eq_iff c cluster).0 same)) apart in
            elim (Bool-cases (is_gone r.1)) [
              | inl gone ↦
                  let d = lookup-delete p.blueprints c cluster in
                  let i = tidy_stays cluster rest r.0 later (ground arith) in ground arith
              | inr stays ↦
                  absurd
                    (failed_error r.1 p.errors stays (tidy_errors rest r.0 worse (ground arith)))
            ]
      ]

  -- After the loop over all blueprints of the plotter, if there is no error, the plotter has no
  -- blueprint on a cluster that is not wanted.
  pub tidy-wanted :
      (w : W) (p : Progress) (cluster : String)
      → (tidy manager wanted p.blueprints w p).1.errors ≡ []
      → (has cluster wanted ≡ true)
        ⊎ (lookup cluster (tidy manager wanted p.blueprints w p).1.blueprints ≡ none)
  tidy-wanted w p cluster h = elim (Bool-cases (has cluster wanted)) [
    | inl asked ↦ inl asked
    | inr apart ↦ elim (Bool-cases (has cluster p.blueprints)) [
      | inl there ↦ inr (tidy_removes cluster p.blueprints w p apart there h)
      | inr lacking ↦
          inr
            (tidy_stays cluster p.blueprints w p (not_there (lookup cluster p.blueprints) lacking))
    ]
  ]
