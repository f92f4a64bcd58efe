-- ===== src/Validation.antt =====
-- manager/controllers/app/fybrikmodule_controller.go: the validation of a module. The API server and the
-- check against the schema, which gives the violations or an error of its own, are parameters.
mod Tests
use mesh_for_data.Base.{
  String, ℕ, if◌then◌else◌, nat_eq, Bool, true, false, not, ◌||◌, Option, none, some, List, [], ◌∷◌,
  Result, ok, err,
}
use mesh_for_data.Api.Application.{
  Condition, ConditionStatus, is_false, is_true, is_unknown, unset, valid_condition,
}
use mesh_for_data.Api.Module.{FybrikModule}

-- A module with its generation, whether it is being deleted, and the conditions of its status.
pub record ModuleObject : Type 0 where
  pub fybrik_module : FybrikModule
  pub generation : ℕ
  pub deleted : Bool
  pub conditions : List Condition

-- `get_module` gives `none` for an object that is not there. `update_status` gets the conditions that
-- were there before.
pub record ModuleServer (W : Type 0) : Type 0 where
  pub get_module : W → Result (Option ModuleObject)
  pub update_status : W → ModuleObject → List Condition → W × Option String
  pub taxonomy_check : FybrikModule → Result (List String)
  pub invalid_error : String → List String → String
  pub webhooks : Bool

abbrev pub status_is_unknown : ConditionStatus → Bool
status_is_unknown is_unknown = true
status_is_unknown is_true = false
status_is_unknown is_false = false
status_is_unknown unset = false

-- The condition after a validation with an error or none.
abbrev pub settled : ℕ → Condition → Option String → Condition
settled generation c none = record c {
  observed_generation = generation;
  status = is_true;
  message = "";
}
settled generation c (some e) = record c {
  observed_generation = generation;
  status = is_false;
  message = e;
}

module _ {W : Type 0} (server : ModuleServer W) where
  unfoldable pub validate_fybrik_module : FybrikModule → Option String
  validate_fybrik_module m = elim (server.taxonomy_check m) [
    | err e ↦ some e
    | ok [] ↦ none
    | ok (v ∷ vs) ↦ some (server.invalid_error m.name (v ∷ vs))
  ]

  -- The first condition, validated anew if it is of another generation or unknown.
  unfoldable pub validate_condition : FybrikModule → ℕ → Condition → Condition
  unfolding validate_fybrik_module
  validate_condition m generation c =
      let failure = if server.webhooks then none else validate_fybrik_module m in
      if not (nat_eq c.observed_generation generation) || status_is_unknown c.status
      then settled generation c failure
      else c

  unfoldable pub validate_conditions : FybrikModule → ℕ → List Condition → List Condition
  unfolding validate_condition
  validate_conditions m generation [] =
      validate_condition m generation (record {
        type = valid_condition;
        status = is_unknown;
        message = "";
        observed_generation = 0;
      })
      ∷ []
  validate_conditions m generation (c ∷ rest) = validate_condition m generation c ∷ rest

  -- `Reconcile`: the error, if any.
  unfoldable pub handle_module_object : W → W × Option String
  unfolding validate_conditions
  handle_module_object w = elim (server.get_module w) [
    | err e ↦ (w, some e)
    | ok none ↦ (w, none)
    | ok (some o) ↦
        let stored =
          server.update_status w
            (record o {
              conditions = validate_conditions o.fybrik_module o.generation o.conditions;
            })
            o.conditions in
        if o.deleted then (w, none) else stored
  ]
