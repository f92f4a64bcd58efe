-- ===== src/Deploy/Cleaned.antt =====
-- The releases that `reconcile_blueprint` of Deploy/Reconcile.antt leaves in the status.
use mesh_for_data.Base.{
  String, ℕ, ◌==◌, nat_eq, ◌≡◌, refl, sym, ap, ◌∙◌, subst, Bool-cases, false, ◌⊎◌, inl, inr,
  Option-cases, some, [], ◌∷◌, All, All-map, Result, Result-cases, ok, arith, eq_iff,
}
use mesh_for_data.Base.Json.{Fields}
use mesh_for_data.Base.Maps.{
  HasKeysOnce, Map, get_or_zero, has, or_zero, delete, lookup, lookup-delete,
}
use mesh_for_data.Api.Blueprint.{Blueprint, BlueprintStatus, ModuleArguments}
use mesh_for_data.Deploy.{Helmer, Platform}
use mesh_for_data.Deploy.Noted.{visit_modules_releases}
use mesh_for_data.Deploy.Reconcile.{
  release_of, clean_up, conclude, first_progress, reconcile_blueprint, visit_modules,
}

module _ {W C R : Type 0} (helm : Helmer W C) (platform : Platform W R)
    (arguments_map : ModuleArguments → Result Fields) (digest : String → String)
    (b : Blueprint) where
  -- Helm failed to uninstall the release.
  abbrev pub IsStuck : String → Type 0
  IsStuck release =
      (at : W) × (e : String) × ((helm.uninstall at b.spec.modules_namespace release).1 ≡ some e)

  -- What is left is what was there.
  clean_up_kept :
      (l : Map ℕ) (w : W) (m : Map ℕ) (release : String) (v : ℕ)
      → lookup release (clean_up helm platform arguments_map digest b l w m).1 ≡ some v
      → lookup release m ≡ some v
  unfolding clean_up lookup
  clean_up_kept [] w m release v h = h
  clean_up_kept ((other, version) ∷ rest) w m release v h =
      elim (Bool-cases (nat_eq version b.generation)) [
        | inl current ↦ clean_up_kept rest w m release v (ground arith)
        | inr old ↦
            let after = (helm.uninstall w b.spec.modules_namespace other).0 in
            elim (Option-cases (helm.uninstall w b.spec.modules_namespace other).1) [
              | inl gone ↦
                  let kept = clean_up_kept rest after (delete other m) release v (ground arith) in
                  ground (arith, lookup-delete m other release, kept)
              | inr (e, failed) ↦ clean_up_kept rest after m release v (ground arith)
            ]
      ]

  absent_or_later :
      (other : String) (version : ℕ) (rest : Map ℕ) (release : String)
      → HasKeysOnce ((other, version) ∷ rest)
      → get_or_zero b.generation release ((other, version) ∷ rest) ≡ b.generation
      → get_or_zero b.generation release rest ≡ b.generation
  unfolding lookup
  absent_or_later other version rest release once current = elim (Bool-cases (other == release)) [
    | inr different ↦ ground arith
    | inl same ↦
        let absent : has release rest ≡ false =
          subst (λ k. has k rest ≡ false) ((eq_iff other release).0 same) once.0 in
        elim (Option-cases (lookup release rest)) [
          | inl gone ↦ rw gone refl
          | inr (v, found) ↦ absurd (ground (arith, absent, found))
        ]
  ]

  -- A release of the current generation stays.
  clean_up_stays :
      (l : Map ℕ) (w : W) (m : Map ℕ) (release : String)
      → HasKeysOnce l
      → get_or_zero b.generation release l ≡ b.generation
      → lookup release m ≡ some b.generation
      → lookup release (clean_up helm platform arguments_map digest b l w m).1 ≡ some b.generation
  unfolding clean_up lookup
  clean_up_stays [] w m release once current h = h
  clean_up_stays ((other, version) ∷ rest) w m release once current h =
      let after = (helm.uninstall w b.spec.modules_namespace other).0 in
      let later : get_or_zero b.generation release rest ≡ b.generation =
        absent_or_later other version rest release once current in
      let stays : (v : W)
          → lookup release (clean_up helm platform arguments_map digest b rest v m).1
            ≡ some b.generation =
        λ v. clean_up_stays rest v m release once.1 later h in
      elim (Bool-cases (nat_eq version b.generation)) [
        | inl now ↦ rw now (stays w)
        | inr old ↦ elim (Option-cases (helm.uninstall w b.spec.modules_namespace other).1) [
          | inr (e, failed) ↦ rw (old, failed) (stays after)
          | inl gone ↦
              rw (old, gone)
                (clean_up_stays rest after (delete other m) release once.1 later
                  (ground (arith, lookup-delete m other release, current, h)))
        ]
      ]

  -- A release that is left is of the current generation, or Helm failed to uninstall it.
  clean_up_left :
      (l : Map ℕ) (w : W) (m : Map ℕ) (release : String) (u v : ℕ)
      → lookup release l ≡ some u
      → lookup release (clean_up helm platform arguments_map digest b l w m).1 ≡ some v
      → (u ≡ b.generation) ⊎ IsStuck release
  unfolding clean_up lookup
  clean_up_left [] w m release u v at h = absurd (ground (arith, at))
  clean_up_left ((other, version) ∷ rest) w m release u v at h =
      elim (Bool-cases (nat_eq version b.generation)) [
        | inl current ↦ elim (Bool-cases (other == release)) [
          | inl same ↦ inl (ground arith)
          | inr different ↦ clean_up_left rest w m release u v (ground arith) (ground arith)
        ]
        | inr old ↦
            let after = (helm.uninstall w b.spec.modules_namespace other).0 in
            elim (Option-cases (helm.uninstall w b.spec.modules_namespace other).1) [
              | inl gone ↦
                  let kept = clean_up_kept rest after (delete other m) release v (ground arith) in
                  elim (Bool-cases (other == release)) [
                    | inl same ↦ absurd (ground (arith, lookup-delete m other release, kept))
                    | inr different ↦
                        clean_up_left rest after (delete other m) release u v (ground arith)
                          (ground arith)
                  ]
              | inr (e, failed) ↦ elim (Bool-cases (other == release)) [
                | inl same ↦ inr (
                  w,
                  e,
                  subst (λ r. (helm.uninstall w b.spec.modules_namespace r).1 ≡ some e)
                      ((eq_iff other release).0 same) failed,
                )
                | inr different ↦
                    clean_up_left rest after m release u v (ground arith) (ground arith)
              ]
            ]
      ]

  -- If `reconcile_blueprint` returns a status, from one whose releases name none twice, then the release
  -- of each module of the blueprint is in its releases, at the generation of the blueprint, and any other
  -- release in it is at this generation too, or Helm failed to uninstall it.
  pub reconcile_blueprint_releases :
      (w : W) (status : BlueprintStatus) (delay : ℕ)
      → HasKeysOnce b.status.releases
      → (reconcile_blueprint helm platform arguments_map digest b w).1 ≡ ok (status, delay)
      → All
          (λ entry.
            lookup (release_of helm platform arguments_map digest b entry.0) status.releases
            ≡ some b.generation)
          b.spec.modules
        × ((release : String) (v : ℕ)
            → lookup release status.releases ≡ some v
            → (v ≡ b.generation) ⊎ IsStuck release)
  unfolding reconcile_blueprint conclude
  reconcile_blueprint_releases w status delay once h =
      elim (Result-cases
        (visit_modules helm platform arguments_map digest b b.spec.modules w
          (first_progress helm platform arguments_map digest b)).1) [
            | inr (e, bad) ↦ absurd (ground arith)
            | inl (q, given) ↦
                let (unique, stays, all) =
                  visit_modules_releases helm platform arguments_map digest b b.spec.modules w
                    (first_progress helm platform arguments_map digest b) q given once in
                let after =
                  (visit_modules helm platform arguments_map digest b b.spec.modules w
                    (first_progress helm platform arguments_map digest b)).0 in
                let same : status.releases
                    ≡ (clean_up helm platform arguments_map digest b q.releases after
                        q.releases).1 =
                  ground arith in
                (
                  All-map
                      (λ entry.
                        lookup (release_of helm platform arguments_map digest b entry.0) q.releases
                        ≡ some b.generation)
                      _ b.spec.modules
                      (λ entry k.
                        ap (lookup _) same
                        ∙ clean_up_stays q.releases after q.releases _ unique
                            (ap (or_zero b.generation) k) k)
                      all,
                  λ release v k.
                      let found = sym (ap (lookup release) same) ∙ k in
                      clean_up_left q.releases after q.releases release v v
                        (clean_up_kept q.releases after q.releases release v found) found,
                )
          ]
