-- ===== src/Planner/Dependencies.antt =====
-- CheckDependencies, SupportsDependencies and GetDependencies of
-- manager/controllers/app/select_modules.go: the modules that a module depends on.
use mesh_for_data.Base.{
  String, ℕ, zero, suc, ◌<◌, ◌<>◌, if◌then◌else◌, ◌≡◌, refl, sym, ◌∙◌, Bool, Bool-cases, true,
  false, inl, inr, Option, Option-cases, none, some, List, [], ◌∷◌, ◌++◌, All, All-map, is_empty,
  map_some, arith,
}
use mesh_for_data.Base.Maps.{Map, lookup}
use mesh_for_data.Api.Module.{
  Dependency, DependencyType, FybrikModule, connector, feature, module_type,
}

-- The modules that are found, and the names of those that are not.
abbrev pub Dependents : Type 0
Dependents = List FybrikModule × List String

abbrev pub is_module : DependencyType → Bool
is_module module_type = true
is_module connector = false
is_module feature = false

abbrev pub add_found : FybrikModule → Option Dependents → Option Dependents → Option Dependents
add_found m (some (xs, ns)) (some (ys, ms)) = some (m ∷ xs ++ ys, ns ++ ms)
add_found m _ _ = none

abbrev pub add_missing : String → Option Dependents → Option Dependents
add_missing name none = none
add_missing name (some (xs, ns)) = some (xs, name ∷ ns)

-- The loop over the dependencies, with what the recursive call gives.
unfoldable pub depend_all :
    (FybrikModule → Option Dependents) → Map FybrikModule → List Dependency → Option Dependents
unfolding lookup
depend_all self modules [] = some ([], [])
depend_all self modules (d ∷ rest) =
    let later = depend_all self modules rest in
    let there : Option Dependents = elim (lookup d.name modules) [
      | none ↦ add_missing d.name later
      | some m ↦ add_found m (self m) later
    ] in
    if is_module d.type then there else later

-- The recursion on a depth; `none` stands for one that goes deeper.
unfoldable pub check_dependencies : ℕ → Map FybrikModule → FybrikModule → Option Dependents
unfolding depend_all
check_dependencies zero modules m = none
check_dependencies (suc depth) modules m =
    depend_all (λ d. check_dependencies depth modules d) modules m.spec.dependencies

unfoldable pub supports_dependencies : ℕ → Map FybrikModule → FybrikModule → Option Bool
unfolding check_dependencies
supports_dependencies depth modules m =
    map_some (λ (f : Dependents). is_empty f.1) (check_dependencies depth modules m)

-- The dependencies and the error, both, as the function returns both.
unfoldable pub get_dependencies :
    ℕ → Map FybrikModule → FybrikModule → Option (List FybrikModule × Option String)
unfolding check_dependencies
get_dependencies depth modules m =
    map_some
      (λ (f : Dependents). (
        f.0,
        if is_empty f.1 then none else some ("Module " <> m.name <> " has missing dependencies"),
      ))
      (check_dependencies depth modules m)

-- The rank of the module is above those of the modules that it depends on.
abbrev pub IsAbove : Map FybrikModule → (FybrikModule → ℕ) → FybrikModule → Type 0
IsAbove modules rank m =
    All
      (λ (d : Dependency).
        (n : FybrikModule)
        → lookup d.name modules ≡ some n
        → is_module d.type ≡ true
        → rank n < rank m)
      m.spec.dependencies

-- This holds of each module of the map.
abbrev pub IsRanked : Map FybrikModule → (FybrikModule → ℕ) → Type 0
IsRanked modules rank =
    (name : String) (n : FybrikModule) → lookup name modules ≡ some n → IsAbove modules rank n

module _ (modules : Map FybrikModule) where
  -- Two recursive calls that agree, with a result, on the modules that are met.
  AgreeOn :
      (FybrikModule → Option Dependents) → (FybrikModule → Option Dependents) → Dependency → Type 0
  AgreeOn self other d =
      (n : FybrikModule)
      → lookup d.name modules ≡ some n
      → is_module d.type ≡ true
      → (f : Dependents) × (self n ≡ some f) × (other n ≡ some f)

  depend_all_agree :
      (self other : FybrikModule → Option Dependents) (l : List Dependency)
      → All (AgreeOn self other) l
      → (f : Dependents) × (depend_all self modules l ≡ some f)
        × (depend_all other modules l ≡ some f)
  unfolding depend_all AgreeOn
  depend_all_agree self other [] h = (([], []), refl, refl)
  depend_all_agree self other (d ∷ rest) (here, more) =
      let (f, one, two) = depend_all_agree self other rest more in
      elim (Bool-cases (is_module d.type)) [
        | inr other_type ↦ (f, rw other_type one, rw other_type two)
        | inl depends ↦ elim (Option-cases (lookup d.name modules)) [
          | inl missing ↦ (
            (f.0, d.name ∷ f.1),
            rw (depends, missing, one) refl,
            rw (depends, missing, two) refl,
          )
          | inr (n, found) ↦
              let (g, left, right) = here n found depends in
              (
                (n ∷ g.0 ++ f.0, g.1 ++ f.1),
                rw (depends, found, left, one) refl,
                rw (depends, found, right, two) refl,
              )
        ]
      ]

  -- Depths above the rank give one result.
  check_dependencies_agree :
      (rank : FybrikModule → ℕ) (one two : ℕ) (m : FybrikModule)
      → IsRanked modules rank
      → IsAbove modules rank m
      → rank m < one
      → rank m < two
      → (f : Dependents) × (check_dependencies one modules m ≡ some f)
        × (check_dependencies two modules m ≡ some f)
  unfolding check_dependencies AgreeOn
  check_dependencies_agree rank zero two m ranked above a b = absurd (omega (arith, a))
  check_dependencies_agree rank (suc one) zero m ranked above a b = absurd (omega (arith, b))
  check_dependencies_agree rank (suc one) (suc two) m ranked above a b =
      depend_all_agree (λ d. check_dependencies one modules d)
        (λ d. check_dependencies two modules d) m.spec.dependencies
        (All-map _ _ m.spec.dependencies
          (λ d below n found depends.
            let less = below n found depends in
            check_dependencies_agree rank one two n ranked (ranked d.name n found)
              (omega (arith, a, less)) (omega (arith, b, less)))
          above)

  -- Where the dependencies of a module and of those in the map have no cycle, as a rank of the modules
  -- shows, `check_dependencies` has a result, the same at every depth above the rank of the module.
  pub check_dependencies_total :
      (rank : FybrikModule → ℕ) (m : FybrikModule)
      → IsRanked modules rank
      → IsAbove modules rank m
      → (f : Dependents) × ((depth : ℕ)
          → rank m < depth
          → check_dependencies depth modules m ≡ some f)
  check_dependencies_total rank m ranked above =
      let (f, first, again) =
        check_dependencies_agree rank (suc (rank m)) (suc (rank m)) m ranked above (omega arith)
          (omega arith) in
      (
        f,
        λ depth deep.
            let (g, one, two) =
              check_dependencies_agree rank (suc (rank m)) depth m ranked above (omega arith)
                deep in
            two ∙ sym one ∙ first,
      )
