-- ===== src/Validation/Tests.antt =====
-- The functions of Validation at a module that is not valid.
use mesh_for_data.Base.{ℕ, ◌≡◌, refl, false, none, [], ◌∷◌, ok}
use mesh_for_data.Api.Application.{Condition, is_false, valid_condition}
use mesh_for_data.Planner.Samples.{reader}
use mesh_for_data.Validation.{ModuleServer, validate_conditions}

abbrev strict : ModuleServer ℕ
strict = record {
  get_module = λ w. ok none;
  update_status = λ w o old. (w, none);
  taxonomy_check = λ m. ok ("no plugin" ∷ []);
  invalid_error = λ name violations. name;
  webhooks = false;
}

abbrev refused : Condition
refused = record {
  type = valid_condition;
  status = is_false;
  message = "reader";
  observed_generation = 3;
}

refused_first : validate_conditions strict reader 3 [] ≡ refused ∷ []
unfolding validate_conditions
refused_first = refl

refused_again : validate_conditions strict reader 3 (refused ∷ []) ≡ refused ∷ []
unfolding validate_conditions
refused_again = refl
