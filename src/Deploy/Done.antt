-- ===== src/Deploy/Done.antt =====
-- What a blueprint that `reconcile_blueprint` of Deploy/Reconcile.antt reports as ready has.
use mesh_for_data.Base.{
  String, ℕ, suc, ◌+◌, ◌≤◌, nat_eq, length, ◌≡◌, refl, ap, subst, Bool, true, false, ◌⊎◌, inl, inr,
  Option, none, some, List, [], ◌∷◌, All, Result, Result-cases, ok, err, arith,
}
use mesh_for_data.Base.Json.{Fields}
use mesh_for_data.Base.Maps.{Map}
use mesh_for_data.Api.Application.{ConditionStatus, is_false, is_true, is_unknown, unset}
use mesh_for_data.Api.Blueprint.{Blueprint, BlueprintModule, BlueprintStatus, ModuleArguments}
use mesh_for_data.Status.{holds}
use mesh_for_data.Deploy.{
  Helmer, Platform, ReleaseState, Resource, deployed, failed_release, other_state,
}
use mesh_for_data.Deploy.Check.{check_release_status, check_resource_status, count_ready}
use mesh_for_data.Deploy.Reconcile.{
  BlueprintProgress, Need, chart_needed, check_needed, nothing_needed, after_apply, after_check,
  conclude, first_progress, handle_module, labelled, need_of, reconcile_blueprint, release_of,
  update_required, visit_module, visit_modules,
}

holds-cases : (s : ConditionStatus) → (s ≡ is_true) ⊎ (holds s ≡ false)
holds-cases is_true = inl refl
holds-cases is_false = inr refl
holds-cases is_unknown = inr refl
holds-cases unset = inr refl

abbrev or_zero : ℕ → Result ℕ → ℕ
or_zero n (ok k) = k
or_zero n (err e) = n

-- Only a deployed release is checked.
need_of_check :
    (new : Bool) (r : Result (Option ReleaseState))
    → need_of new r ≡ check_needed
    → r ≡ ok (some deployed)
unfolding need_of
need_of_check true r h = absurd (ground arith)
need_of_check false (err e) h = absurd (ground arith)
need_of_check false (ok none) h = absurd (ground arith)
need_of_check false (ok (some failed_release)) h = absurd (ground arith)
need_of_check false (ok (some deployed)) h = refl
need_of_check false (ok (some other_state)) h = absurd (ground arith)

after_apply_counts :
    (name : String) (e : Option String) (p : BlueprintProgress)
    → (after_apply name e p).num_ready ≡ p.num_ready
unfolding after_apply
after_apply_counts name none p = refl
after_apply_counts name (some e) p = refl

after_check_counts :
    (name : String) (s : ConditionStatus) (message : String) (p : BlueprintProgress)
    → ((after_check name s message p).num_ready ≡ p.num_ready)
      ⊎ (((after_check name s message p).num_ready ≡ suc p.num_ready) × (s ≡ is_true))
unfolding after_check
after_check_counts name is_false message p = inl refl
after_check_counts name is_true message p = inr (refl, refl)
after_check_counts name is_unknown message p = inl refl
after_check_counts name unset message p = inl refl

module _ {W C R : Type 0} (helm : Helmer W C) (platform : Platform W R) where
  -- The resource is ready.
  abbrev pub IsReady : W → Resource → Type 0
  IsReady w res = (check_resource_status helm platform w res).0 ≡ is_true

  -- The loop counts at most one for each resource, and one for each only if all are ready.
  count_ready_lem :
      (w : W) (l : List Resource) (n k : ℕ)
      → count_ready helm platform w l n ≡ ok k
      → (k ≤ n + length l) × ((k ≡ n + length l) → All (IsReady w) l)
  unfolding count_ready
  count_ready_lem w [] n k h = let same : n ≡ k = ap (or_zero n) h in (omega (arith, same), λ _. tt)
  count_ready_lem w (res ∷ rest) n k h =
      elim (holds-cases (check_resource_status helm platform w res).0) [
        | inl ready ↦
            let (bound, all) = count_ready_lem w rest (n + 1) k (ground arith) in
            (omega (arith, bound), λ full. (ready, all (omega (arith, full))))
        | inr unready ↦
            let (bound, all) = count_ready_lem w rest n k (ground arith) in
            (omega (arith, bound), λ full. absurd (omega (arith, bound, full)))
      ]

  -- A release is ready only if Helm gives its resources and all of them are.
  check_release_status-IsReady :
      (w : W) (release namespace : String)
      → (check_release_status helm platform w release namespace).0 ≡ is_true
      → (resources : List Resource) × (helm.get_resources w namespace release ≡ ok resources)
        × All (IsReady w) resources
  unfolding check_release_status
  check_release_status-IsReady w release namespace h =
      elim (Result-cases (helm.get_resources w namespace release)) [
        | inr (e, bad) ↦ absurd (ground arith)
        | inl (resources, given) ↦ elim (Result-cases (count_ready helm platform w resources 0)) [
          | inr (e, bad) ↦ absurd (ground arith)
          | inl (k, counted) ↦
              let full : k ≡ length resources = ground arith in
              (resources, given, (count_ready_lem w resources 0 k counted).1 (omega (arith, full)))
        ]
      ]

  module _ (arguments_map : ModuleArguments → Result Fields) (digest : String → String)
      (b : Blueprint) where
    -- The release of the module is deployed, and all its resources are ready.
    abbrev pub IsRunning : W → String → Type 0
    IsRunning w name =
        let release = release_of helm platform arguments_map digest b name in
        (helm.status w b.spec.modules_namespace release ≡ ok (some deployed))
        × ((resources : List Resource) × (helm.get_resources w b.spec.modules_namespace release
              ≡ ok resources)
            × All (IsReady w) resources)

    handle_module_counts :
        (name : String) (m : BlueprintModule) (args : Fields) (need : Need) (w : W)
        (p : BlueprintProgress)
        → ((handle_module helm platform arguments_map digest b name m args need w p).1.num_ready
            ≡ p.num_ready)
          ⊎ (((handle_module helm platform arguments_map digest b name m args need w p).1.num_ready
                ≡ suc p.num_ready)
              × ((handle_module helm platform arguments_map digest b name m args need w p).0 ≡ w)
              × (need ≡ check_needed)
              × ((check_release_status helm platform w
                    (release_of helm platform arguments_map digest b name)
                    b.spec.modules_namespace).0
                  ≡ is_true))
    unfolding handle_module
    handle_module_counts name m args chart_needed w p = inl (after_apply_counts name _ p)
    handle_module_counts name m args check_needed w p = elim (after_check_counts name _ _ p) [
      | inl same ↦ inl same
      | inr (more, ready) ↦ inr (more, refl, refl, ready)
    ]
    handle_module_counts name m args nothing_needed w p = inl refl

    -- A round leaves the counter, or adds one for a module that runs.
    visit_module_counts :
        (name : String) (m : BlueprintModule) (w : W) (p q : BlueprintProgress)
        → (visit_module helm platform arguments_map digest b name m w p).1 ≡ ok q
        → (q.num_ready ≡ p.num_ready)
          ⊎ ((q.num_ready ≡ suc p.num_ready)
              × IsRunning w name
              × ((visit_module helm platform arguments_map digest b name m w p).0 ≡ w))
    unfolding visit_module
    visit_module_counts name m w p q h =
        let release = release_of helm platform arguments_map digest b name in
        elim (Result-cases
          (arguments_map (labelled helm platform arguments_map digest b m.arguments))) [
            | inr (e, bad) ↦ absurd (ground arith)
            | inl (args, given) ↦
                elim (handle_module_counts name m args
                  (need_of (update_required helm platform arguments_map digest b)
                    (helm.status w b.spec.modules_namespace release))
                  w p) [
                    | inl same ↦ inl (ground arith)
                    | inr (more, same, needed, ready) ↦ inr (
                      ground arith,
                      (need_of_check _ _ needed, check_release_status-IsReady w release _ ready),
                      ground arith,
                    )
                  ]
          ]

    -- The loop counts at most one for each module, and one for each only if all of them run.
    visit_modules_counts :
        (l : Map BlueprintModule) (w : W) (p q : BlueprintProgress)
        → (visit_modules helm platform arguments_map digest b l w p).1 ≡ ok q
        → (q.num_ready ≤ p.num_ready + length l)
          × ((q.num_ready ≡ p.num_ready + length l) → All (λ entry. IsRunning w entry.0) l)
    unfolding visit_modules
    visit_modules_counts [] w p q h =
        let same : p.num_ready ≡ q.num_ready = ground arith in (omega (arith, same), λ _. tt)
    visit_modules_counts ((name, m) ∷ rest) w p q h =
        elim (Result-cases (visit_module helm platform arguments_map digest b name m w p).1) [
          | inr (e, bad) ↦ absurd (ground arith)
          | inl (r, given) ↦
              let (bound, all) =
                visit_modules_counts rest
                  (visit_module helm platform arguments_map digest b name m w p).0 r q
                  (ground arith) in
              elim (visit_module_counts name m w p r given) [
                | inl same ↦
                    (omega (arith, same, bound), λ full. absurd (omega (arith, same, bound, full)))
                | inr (more, running, same) ↦ (
                  omega (arith, more, bound),
                  λ full. (
                    running,
                    subst (λ v. All (λ entry. IsRunning v entry.0) rest) same
                        (all (omega (arith, more, full))),
                  ),
                )
              ]
        ]

    -- If `reconcile_blueprint` returns a status that is ready, then each module of the blueprint has, in
    -- the state that the run starts from, a deployed release of which Helm gives the resources, and all of
    -- these are ready.
    pub reconcile_blueprint_ready :
        (w : W) (status : BlueprintStatus) (delay : ℕ)
        → (reconcile_blueprint helm platform arguments_map digest b w).1 ≡ ok (status, delay)
        → status.observed_state.ready ≡ true
        → All (λ entry. IsRunning w entry.0) b.spec.modules
    unfolding reconcile_blueprint conclude
    reconcile_blueprint_ready w status delay h ready =
        elim (Result-cases
          (visit_modules helm platform arguments_map digest b b.spec.modules w
            (first_progress helm platform arguments_map digest b)).1) [
              | inr (e, bad) ↦ absurd (ground arith)
              | inl (q, given) ↦
                  let (bound, all) = visit_modules_counts b.spec.modules w _ q given in
                  let done : nat_eq q.num_ready (length b.spec.modules) ≡ true = ground arith in
                  all (ground arith)
            ]
