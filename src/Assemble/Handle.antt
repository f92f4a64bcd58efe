-- ===== src/Assemble/Handle.antt =====
-- `Reconcile` of manager/controllers/app/fybrikapplication_controller.go. `none` is a panic. The check of
-- an application against the schema, the environment variable for web hooks and the API server are
-- parameters.
use mesh_for_data.Base.{
  String, ℕ, if◌then◌else◌, nat_eq, Bool, true, false, not, ◌&&◌, ◌||◌, Option, none, some, Result,
  ok, err, and_then, map_some,
}
use mesh_for_data.Api.Application.{
  ConditionStatus, FybrikApplication, FybrikApplicationStatus, ObservedState, ResourceReference,
  is_false, is_true, is_unknown, unset,
}
use mesh_for_data.Cleanup.{Server, reconcile_app_finalizers}
use mesh_for_data.Status.{fails, get_error_messages, is_ready}
use mesh_for_data.Status.Readiness.{check_readiness}
use mesh_for_data.Assemble.{Services}
use mesh_for_data.Assemble.Reconcile.{Assembled, reconcile_application}
use mesh_for_data.Assemble.Resource.{PlotterStore, get_resource_status, resource_exists}
use mesh_for_data.Assemble.Solution.{Workshop}
use mesh_for_data.Assemble.Storage.{Provision}

-- `get_application` gives `none` for an object that is not there. `update_status` is
-- `utils.UpdateStatus`, `set_persistent` that of the storage.
pub record Front (W : Type 0) : Type 0 where
  pub get_application : W → Result (Option FybrikApplication)
  pub webhooks : Bool
  pub validate : FybrikApplication → Option String
  pub update_status : W → FybrikApplication → FybrikApplicationStatus → W × Option String
  pub server : Server W
  pub set_persistent : W → String → W × Option String

abbrev pub is_unset : ConditionStatus → Bool
is_unset unset = true
is_unset is_true = false
is_unset is_false = false
is_unset is_unknown = false

abbrev pub is_at : ℕ → Option ResourceReference → Bool
is_at generation none = false
is_at generation (some ref) = nat_eq ref.app_version generation

-- The application after a validation.
abbrev pub after_validation : FybrikApplication → Option String → FybrikApplication
after_validation a none = record a {
  status = record a.status { validated_generation = a.generation; valid_application = is_true };
}
after_validation a (some e) = record a {
  status = record a.status {
    validated_generation = a.generation;
    error_message = e;
    valid_application = is_false;
  };
}

abbrev pub saved : {W : Type 0} → W × Option String → ℕ → W × Result ℕ
saved (w, none) delay = (w, ok delay)
saved (w, some e) delay = (w, err e)

module _ {W : Type 0} (services : Services W) (workshop : Workshop W) (provision : Provision W)
    (store : PlotterStore W) (front : Front W) (name : String) where
  -- The end: the status is stored, and a run in ten seconds is asked for unless the application is
  -- ready. `old` is the status that the run started with.
  unfoldable pub finish_application :
      FybrikApplicationStatus → FybrikApplication → W → Option (W × Result ℕ)
  unfolding is_ready get_error_messages
  finish_application old a w = and_then (is_ready a) (λ (ready : Bool).
      let noted : FybrikApplication = record a { status = record a.status { ready = ready } } in
      let (after, failure) = front.update_status w noted old in
      let delay = if ready then 0 else 10 in
      elim failure [
        | some e ↦ some (after, err e)
        | none ↦ map_some (λ (message : String). (after, ok delay)) (get_error_messages noted)
      ])

  -- The application is reconciled. The delay that `reconcile` asks for is dropped.
  unfoldable pub after_reconcile : FybrikApplicationStatus → ℕ → Assembled W → Option (W × Result ℕ)
  unfolding finish_application
  after_reconcile old generation r =
      let noted = record (r.application) {
        status = record r.application.status { observed_generation = generation };
      } in
      elim (r.outcome) [
        | err e ↦ some ((front.update_status r.world r.application old).0, err e)
        | ok delay ↦ finish_application old noted r.world
      ]

  -- The plotter is there: its state is read.
  unfoldable pub after_status :
      FybrikApplicationStatus → FybrikApplication → W → Result ObservedState → Option (W × Result ℕ)
  unfolding check_readiness finish_application
  after_status old a w (err e) = some (w, err e)
  after_status old a w (ok s) =
      and_then (check_readiness front.set_persistent a s w)
        (λ (after, checked). finish_application old checked after)

  -- The generation has a plotter that is there.
  unfoldable pub generation_complete : FybrikApplicationStatus → ℕ → W → Bool
  unfolding resource_exists
  generation_complete old generation w =
      resource_exists store old.generated w && is_at generation old.generated

  unfoldable pub reconcile_valid :
      FybrikApplicationStatus → FybrikApplication → W → Option (W × Result ℕ)
  unfolding generation_complete reconcile_application after_reconcile after_status
      get_resource_status
  reconcile_valid old a w =
      let new =
        and_then (reconcile_application services workshop provision store a w)
          (after_reconcile old a.generation) in
      let known = after_status old a w (get_resource_status store a.status.generated w) in
      if fails a.status.valid_application
      then some (w, ok 0)
      else if not (generation_complete old a.generation w)
          || not (nat_eq old.observed_generation a.generation)
      then new
      else known

  -- The validation, where it is asked for.
  unfoldable pub validate_application : FybrikApplication → W → Option (W × Result ℕ)
  unfolding reconcile_valid
  validate_application a w =
      let failure = front.validate a in
      let checked = after_validation a failure in
      let as_it_is = reconcile_valid a.status a w in
      let as_checked = reconcile_valid a.status checked w in
      if not front.webhooks
        && (is_unset a.status.valid_application
            || not (nat_eq a.status.validated_generation a.generation))
      then elim failure [
        | none ↦ as_checked
        | some e ↦ some (saved (front.update_status w checked a.status) 0)
      ]
      else as_it_is

  -- `Reconcile`: the delay in seconds until the next run, 0 for none. `name` is the reconciler's.
  unfoldable pub handle_application : W → Option (W × Result ℕ)
  unfolding reconcile_app_finalizers validate_application
  handle_application w = elim (front.get_application w) [
    | err e ↦ some (w, err e)
    | ok none ↦ some (w, ok 0)
    | ok (some a) ↦
        let (after, noted, failure) = reconcile_app_finalizers front.server name a w in
        let next = validate_application noted after in
        elim failure [
          | some e ↦ some (after, err e)
          | none ↦ if a.deleted then some (after, ok 0) else next
        ]
  ]
