-- ===== src/Deploy/Noted.antt =====
-- The releases that the loop of `reconcile_blueprint` in Deploy/Reconcile.antt notes.
use mesh_for_data.Base.{
  String, ◌≡◌, refl, sym, ap, ◌∙◌, subst, inl, inr, Option, none, some, [], ◌∷◌, All, eq_refl,
  Result, Result-cases, ok, arith,
}
use mesh_for_data.Base.Json.{Fields}
use mesh_for_data.Base.Maps.{HasKeysOnce, HasKeysOnce-insert, Map, insert, lookup, lookup-insert}
use mesh_for_data.Api.Blueprint.{Blueprint, BlueprintModule, ModuleArguments}
use mesh_for_data.Deploy.{Helmer, Platform}
use mesh_for_data.Api.Application.{ConditionStatus, is_false, is_true, is_unknown, unset}
use mesh_for_data.Deploy.Reconcile.{
  Need, chart_needed, check_needed, nothing_needed, after_apply, after_check, handle_module,
  labelled, need_of, release_of, update_required, visit_module, BlueprintProgress, visit_modules,
}

module _ {W C R : Type 0} (helm : Helmer W C) (platform : Platform W R)
    (arguments_map : ModuleArguments → Result Fields) (digest : String → String)
    (b : Blueprint) where
  after_apply_releases :
      (name : String) (e : Option String) (p : BlueprintProgress)
      → (after_apply name e p).releases ≡ p.releases
  unfolding after_apply
  after_apply_releases name none p = refl
  after_apply_releases name (some e) p = refl

  after_check_releases :
      (name : String) (s : ConditionStatus) (message : String) (p : BlueprintProgress)
      → (after_check name s message p).releases ≡ p.releases
  unfolding after_check
  after_check_releases name is_false message p = refl
  after_check_releases name is_true message p = refl
  after_check_releases name is_unknown message p = refl
  after_check_releases name unset message p = refl

  handle_module_releases :
      (name : String) (m : BlueprintModule) (args : Fields) (need : Need) (w : W)
      (p : BlueprintProgress)
      → (handle_module helm platform arguments_map digest b name m args need w p).1.releases
        ≡ p.releases
  unfolding handle_module
  handle_module_releases name m args chart_needed w p = after_apply_releases name _ p
  handle_module_releases name m args check_needed w p = after_check_releases name _ _ p
  handle_module_releases name m args nothing_needed w p = refl

  visit_module_releases :
      (name : String) (m : BlueprintModule) (w : W) (p q : BlueprintProgress)
      → (visit_module helm platform arguments_map digest b name m w p).1 ≡ ok q
      → q.releases
        ≡ insert (release_of helm platform arguments_map digest b name) b.generation p.releases
  unfolding visit_module
  visit_module_releases name m w p q h =
      elim (Result-cases
        (arguments_map (labelled helm platform arguments_map digest b m.arguments))) [
          | inr (e, bad) ↦ absurd (ground arith)
          | inl (args, given) ↦
              let same =
                handle_module_releases name m args
                  (need_of (update_required helm platform arguments_map digest b) (
                    helm.status w b.spec.modules_namespace
                      (release_of helm platform arguments_map digest b name)))
                  w p in
              let e : q.releases
                  ≡ insert (release_of helm platform arguments_map digest b name) b.generation
                      (handle_module helm platform arguments_map digest b name m args
                        (need_of (update_required helm platform arguments_map digest b) (
                          helm.status w b.spec.modules_namespace
                            (release_of helm platform arguments_map digest b name)))
                        w p).1.releases =
                ground arith in
              e ∙ ap (insert _ b.generation) same
        ]

  -- The loop notes each module's release at the current generation, and keeps those so noted.
  pub visit_modules_releases :
      (l : Map BlueprintModule) (w : W) (p q : BlueprintProgress)
      → (visit_modules helm platform arguments_map digest b l w p).1 ≡ ok q
      → HasKeysOnce p.releases
      → HasKeysOnce q.releases
        × ((release : String)
            → lookup release p.releases ≡ some b.generation
            → lookup release q.releases ≡ some b.generation)
        × All
            (λ entry.
              lookup (release_of helm platform arguments_map digest b entry.0) q.releases
              ≡ some b.generation)
            l
  unfolding visit_modules
  visit_modules_releases [] w p q h once =
      let same : p ≡ q = ground arith in
      (subst (λ r. HasKeysOnce r.releases) same once, λ release k. ground (arith, same, k), tt)
  visit_modules_releases ((name, m) ∷ rest) w p q h once =
      elim (Result-cases (visit_module helm platform arguments_map digest b name m w p).1) [
        | inr (e, bad) ↦ absurd (ground arith)
        | inl (r, given) ↦
            let release = release_of helm platform arguments_map digest b name in
            let noted = visit_module_releases name m w p r given in
            let found = lookup-insert p.releases release in
            let (kept, stays, all) =
              visit_modules_releases rest
                (visit_module helm platform arguments_map digest b name m w p).0 r q (ground arith)
                (subst HasKeysOnce (sym noted)
                  (HasKeysOnce-insert p.releases release b.generation once)) in
            (
              kept,
              λ other k.
                  stays other (ap (lookup other) noted ∙ found other b.generation ∙ ground arith),
              (
                stays release (
                    ap (lookup release) noted
                    ∙ found release b.generation
                    ∙ rw (eq_refl release) refl),
                all,
              ),
            )
      ]
