-- ===== src/Deploy/Reconcile.antt =====
-- `reconcile` of manager/controllers/app/blueprint_controller.go, behind its parts in Deploy.antt and
-- Deploy/Check.antt. The conversion of a module's arguments to a map (a JSON codec) and the digest of
-- the names are parameters. The labels that the loop writes into the arguments of a module are those
-- of this module only.
use mesh_for_data.Base.{
  String, ℕ, suc, ◌==◌, ◌<>◌, if◌then◌else◌, nat_eq, length, Bool, true, false, not, Option, none,
  some, [], ◌∷◌, Result, ok, err,
}
use mesh_for_data.Base.Json.{Fields}
use mesh_for_data.Base.Maps.{Map, delete, get_or_zero, insert, lookup, or_zero}
use mesh_for_data.Api.Application.{ConditionStatus, ObservedState, is_false, is_true}
use mesh_for_data.Api.Blueprint.{Blueprint, BlueprintModule, BlueprintStatus, ModuleArguments}
use mesh_for_data.Names.{release_name}
use mesh_for_data.Deploy.{
  Helmer, Platform, ReleaseState, apply_chart_resource, deployed, failed_release, other_state,
}
use mesh_for_data.Deploy.Check.{check_release_status}

-- `utils.GetFybrikApplicationUUIDfromAnnotations`
unfoldable pub uuid_of : Map String → String
unfolding lookup
uuid_of annotations = or_zero "UUID missing" (lookup "app.fybrik.io/app-uuid" annotations)

-- The variables of the loop over the modules: the error, the states and the releases of the status, and
-- the number of ready releases.
pub record BlueprintProgress : Type 0 where
  pub error : String
  pub modules_state : Map ObservedState
  pub releases : Map ℕ
  pub num_ready : ℕ

-- What the module asks for: a chart to be after_apply, the status of its resources, or nothing.
pub data Need : Type 0 where
  chart_needed check_needed nothing_needed : Need

-- The tests on `updateRequired` and the release.
unfoldable pub need_of : Bool → Result (Option ReleaseState) → Need
need_of true r = chart_needed
need_of false (err e) = chart_needed
need_of false (ok none) = chart_needed
need_of false (ok (some failed_release)) = chart_needed
need_of false (ok (some deployed)) = check_needed
need_of false (ok (some other_state)) = nothing_needed

-- `updateModuleState`
abbrev pub update_module_state : String → Bool → String → BlueprintProgress → BlueprintProgress
update_module_state name is_ready error p = record p {
  modules_state = insert name (record { ready = is_ready; error = error }) p.modules_state;
}

-- The module after its chart was after_apply.
unfoldable pub after_apply : String → Option String → BlueprintProgress → BlueprintProgress
unfolding insert
after_apply name none p = update_module_state name false "" p
after_apply name (some e) p = record (update_module_state name false e p) {
  error = p.error <> ("ChartDeploymentFailure: : " <> e) <> "\n";
}

-- The module after the status of its release was after_check.
unfoldable pub after_check :
    String → ConditionStatus → String → BlueprintProgress → BlueprintProgress
unfolding insert
after_check name is_false message p = record (update_module_state name false message p) {
  error = p.error <> "ResourceAllocationFailure: " <> message <> "\n";
}
after_check name is_true message p = record (update_module_state name true "" p) {
  num_ready = suc p.num_ready;
}
after_check name _ message p = p

module _ {W C R : Type 0} (helm : Helmer W C) (platform : Platform W R)
    (arguments_map : ModuleArguments → Result Fields) (digest : String → String)
    (b : Blueprint) where
  -- The arguments with the debug information in the labels.
  unfoldable pub labelled : ModuleArguments → ModuleArguments
  unfolding insert uuid_of
  labelled args =
      let named = insert "app.fybrik.io/blueprint-name" b.name args.labels in
      let spaced = insert "app.fybrik.io/blueprint-namespace" b.namespace named in
      record args { labels = insert "app.fybrik.io/app-uuid" (uuid_of b.annotations) spaced }

  abbrev pub update_required : Bool
  update_required = not (nat_eq b.status.observed_generation b.generation)

  unfoldable pub release_of : String → String
  unfolding release_name lookup
  release_of instance_name =
      release_name digest (get_or_zero "" "app.fybrik.io/app-name" b.labels)
        (get_or_zero "" "app.fybrik.io/app-namespace" b.labels) instance_name

  -- One round with the arguments of the module as a map, before the release is noted.
  unfoldable pub handle_module :
      String → BlueprintModule → Fields → Need → W → BlueprintProgress → W × BlueprintProgress
  unfolding apply_chart_resource after_apply release_of check_release_status after_check
  handle_module name m args chart_needed w p =
      let (after, failure) =
        apply_chart_resource helm platform m.chart args b (release_of name) w in
      (after, after_apply name failure p)
  handle_module name m args check_needed w p =
      let (status, message) =
        check_release_status helm platform w (release_of name) b.spec.modules_namespace in
      (w, after_check name status message p)
  handle_module name m args nothing_needed w p = (w, p)

  abbrev pub note_release : String → BlueprintProgress → BlueprintProgress
  note_release release p = record p { releases = insert release b.generation p.releases }

  -- One round of the loop over the modules, or the error that ends the reconciliation.
  unfoldable pub visit_module :
      String → BlueprintModule → W → BlueprintProgress → W × Result BlueprintProgress
  unfolding labelled release_of need_of handle_module insert
  visit_module name m w p = elim (arguments_map (labelled m.arguments)) [
    | err e ↦ (w, err ("Blueprint step arguments are invalid: " <> e))
    | ok args ↦
        let need =
          need_of update_required (helm.status w b.spec.modules_namespace (release_of name)) in
        let (after, q) = handle_module name m args need w p in
        (after, ok (note_release (release_of name) q))
  ]

  unfoldable pub visit_modules :
      Map BlueprintModule → W → BlueprintProgress → W × Result BlueprintProgress
  unfolding visit_module
  visit_modules [] w p = (w, ok p)
  visit_modules ((name, m) ∷ rest) w p =
      let (after, result) = visit_module name m w p in
      elim result [ err e ↦ (after, err e) | ok q ↦ visit_modules rest after q ]

  -- The loop over the releases that uninstalls those of another generation.
  unfoldable pub clean_up : Map ℕ → W → Map ℕ → W × Map ℕ
  unfolding delete
  clean_up [] w m = (w, m)
  clean_up ((release, version) ∷ rest) w m =
      let (after, failure) = helm.uninstall w b.spec.modules_namespace release in
      let current = clean_up rest w m in
      let gone = clean_up rest after (delete release m) in
      let stays = clean_up rest after m in
      if nat_eq version b.generation then current else elim failure [ none ↦ gone | some e ↦ stays ]

  -- The status that the reconciliation starts with.
  abbrev pub first_progress : BlueprintProgress
  first_progress = record {
    error = "";
    modules_state = b.status.modules_state;
    releases = b.status.releases;
    num_ready = 0;
  }

  abbrev pub all_done : BlueprintProgress → Bool
  all_done p = nat_eq p.num_ready (length b.spec.modules)

  -- The status at the end.
  abbrev pub status_of : BlueprintProgress → Map ℕ → BlueprintStatus
  status_of p releases = record b.status {
    observed_state = record { ready = all_done p; error = p.error };
    observed_generation = b.generation;
    modules_state = p.modules_state;
    releases = releases;
  }

  -- The delay in seconds until the next run, 0 for none.
  abbrev pub delay_of : BlueprintProgress → ℕ
  delay_of p = if all_done p then 0 else if p.error == "" then 2 else 0

  unfoldable pub conclude : W → Result BlueprintProgress → W × Result (BlueprintStatus × ℕ)
  unfolding clean_up
  conclude w (err e) = (w, err e)
  conclude w (ok p) =
      let (after, releases) = clean_up p.releases w p.releases in
      (after, ok (status_of p releases, delay_of p))

  -- `reconcile`: the status and the delay, or an error.
  unfoldable pub reconcile_blueprint : W → W × Result (BlueprintStatus × ℕ)
  unfolding visit_modules conclude
  reconcile_blueprint w =
      let (after, result) = visit_modules b.spec.modules w first_progress in conclude after result
