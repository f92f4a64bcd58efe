-- ===== src/Releases/Leaks.antt =====
-- What reconcileFinalizers in Releases.antt calls, and what it makes of the finalizer.
use mesh_for_data.Base.{
  String, ℕ, ◌==◌, ◌<>◌, ◌≡◌, refl, Bool-cases, true, false, not, ◌&&◌, ◌||◌, keep, ◌⊎◌, inl, inr,
  List, [], ◌∷◌, ◌++◌, Option, none, arith, eq_iff,
}
use mesh_for_data.Base.Maps.{Map}
use mesh_for_data.Api.Blueprint.{Blueprint}
use mesh_for_data.Planner.Choice.{has_string}
use mesh_for_data.Releases.{delete_releases, reconcile_blueprint_finalizers, uninstall_all}

has_string-keep :
    (f g : String) (l : List String)
    → has_string g (keep (λ x. not (x == f)) l) ≡ (has_string g l && not (g == f))
unfolding has_string keep
has_string-keep f g [] = refl
has_string-keep f g (x ∷ rest) =
    ground (arith, has_string-keep f g rest, eq_iff x f, eq_iff g f, eq_iff x g, eq_iff g x)

has_string-append :
    (f g : String) (l : List String) → has_string g (l ++ f ∷ []) ≡ (has_string g l || g == f)
unfolding has_string
has_string-append f g [] = ground (arith, eq_iff f g, eq_iff g f)
has_string-append f g (x ∷ rest) = ground (arith, has_string-append f g rest)

module _ {W : Type 0} (uninstall : W → String → String → W × Option String)
    (update_finalizers : W → Blueprint → W × Option String) where
  -- The state after a call of Helm's uninstall for each release, in their order, whatever the calls
  -- return.
  abbrev pub after_calls : String → Map ℕ → W → W
  after_calls namespace [] w = w
  after_calls namespace ((release, generation) ∷ rest) w =
      after_calls namespace rest (uninstall w namespace release).0

  uninstall_all-after_calls :
      (namespace : String) (l : Map ℕ) (w : W)
      → (uninstall_all uninstall namespace l w).0 ≡ after_calls namespace l w
  unfolding uninstall_all
  uninstall_all-after_calls namespace [] w = refl
  uninstall_all-after_calls namespace ((release, generation) ∷ rest) w =
      uninstall_all-after_calls namespace rest (uninstall w namespace release).0

  delete_releases-after_calls :
      (b : Blueprint) (w : W)
      → (delete_releases uninstall b w).0 ≡ after_calls b.spec.modules_namespace b.status.releases w
  unfolding delete_releases
  delete_releases-after_calls b w =
      uninstall_all-after_calls b.spec.modules_namespace b.status.releases w

  -- The finalizers of the blueprint are replaced by a list with the property, UpdateFinalizers is
  -- called for the new blueprint, and its error is returned.
  abbrev pub IsStored :
      (List String → Type 0) → Blueprint → W → W × Blueprint × Option String → Type 0
  IsStored P b w result =
      (l : List String) × P l
      × (result.0 ≡ (update_finalizers w (record b { finalizers = l })).0)
      × (result.1 ≡ record b { finalizers = l })
      × (result.2 ≡ (update_finalizers w (record b { finalizers = l })).1)

  -- The list is the blueprint's without the finalizer, or with it.
  abbrev pub IsWithout : String → Blueprint → List String → Type 0
  IsWithout f b l = (g : String) → has_string g l ≡ (has_string g b.finalizers && not (g == f))

  abbrev pub IsWith : String → Blueprint → List String → Type 0
  IsWith f b l = (g : String) → has_string g l ≡ (has_string g b.finalizers || g == f)

  -- The three outcomes of a step.
  abbrev pub IsStep : String → Blueprint → W → W × Blueprint × Option String → Type 0
  IsStep f b w result =
      ((b.deleted ≡ true)
        × (has_string f b.finalizers ≡ true)
        × IsStored (IsWithout f b) b (after_calls b.spec.modules_namespace b.status.releases w)
            result)
      ⊎ (((b.deleted ≡ false)
            × (has_string f b.finalizers ≡ false)
            × IsStored (IsWith f b) b w result)
          ⊎ ((has_string f b.finalizers ≡ not b.deleted) × (result ≡ (w, b, none))))

  -- On a deleted blueprint with the finalizer, Helm's uninstall is called for each release, and then,
  -- whatever these calls return, UpdateFinalizers for the blueprint without the finalizer. On one that
  -- is not deleted and lacks the finalizer, UpdateFinalizers is called for the blueprint with it.
  -- Otherwise nothing is called or changed. The other finalizers stay, the only error returned is
  -- that of UpdateFinalizers, and the blueprint in memory is changed even where that call fails.
  pub reconcile_blueprint_finalizers-IsStep :
      (reconciler : String) (b : Blueprint) (w : W)
      → IsStep
          (reconciler <> ".finalizer")
          b
          w
          (reconcile_blueprint_finalizers uninstall update_finalizers reconciler b w)
  unfolding reconcile_blueprint_finalizers
  reconcile_blueprint_finalizers-IsStep reconciler b w =
      let f = reconciler <> ".finalizer" in
      let calls = delete_releases-after_calls b w in
      let kept = keep (λ x. not (x == f)) b.finalizers in
      elim (Bool-cases b.deleted) [
        | inl gone ↦ elim (Bool-cases (has_string f b.finalizers)) [
          | inl there ↦ inl (
            gone,
            there,
            (
              kept,
              (λ g. has_string-keep f g b.finalizers),
              rw (reconcile_blueprint_finalizers, gone, there, calls) refl,
              rw (reconcile_blueprint_finalizers, gone, there) refl,
              rw (reconcile_blueprint_finalizers, gone, there, calls) refl,
            ),
          )
          | inr absent ↦ inr (inr (rw (gone, absent) refl, rw (gone, absent) refl))
        ]
        | inr alive ↦ elim (Bool-cases (has_string f b.finalizers)) [
          | inl there ↦ inr (inr (rw (alive, there) refl, rw (alive, there) refl))
          | inr absent ↦ inr (
              inl (
                alive,
                absent,
                (
                  b.finalizers ++ f ∷ [],
                  (λ g. has_string-append f g b.finalizers),
                  rw (reconcile_blueprint_finalizers, alive, absent) refl,
                  rw (reconcile_blueprint_finalizers, alive, absent) refl,
                  rw (reconcile_blueprint_finalizers, alive, absent) refl,
                ),
              ))
        ]
      ]
