-- ===== src/Deploy/Check.antt =====
-- The status of a release in manager/controllers/app/blueprint_controller.go, with the labels of
-- manager/controllers/utils/unstructured.go.
use mesh_for_data.Base.{
  String, ℕ, ◌+◌, ◌==◌, if◌then◌else◌, nat_eq, length, Bool, true, false, not, Option, none, some,
  List, [], ◌∷◌, Result, ok, err,
}
use mesh_for_data.Base.Json.{Value, null}
use mesh_for_data.Base.Text.{split_dots}
use mesh_for_data.Api.Module.{FybrikModule, ResourceStatusIndicator}
use mesh_for_data.Api.Application.{ConditionStatus, is_false, is_true, is_unknown}
use mesh_for_data.Deploy.{
  Computed, Helmer, Platform, Resource, current_status, failed_status, other_status,
}

-- The indicator of the kind in a list, if any.
unfoldable pub indicator_of : String → List ResourceStatusIndicator → Option ResourceStatusIndicator
indicator_of kind [] = none
indicator_of kind (i ∷ rest) =
    let later = indicator_of kind rest in if i.kind == kind then some i else later

abbrev pub first_of {ℓ} : {A : Type ℓ} → Option A → Option A → Option A
first_of none other = other
first_of (some a) other = some a

-- The loops of `getExpectedResults` over the modules and their indicators.
unfoldable pub expected_in : String → List FybrikModule → Option ResourceStatusIndicator
unfolding indicator_of
expected_in kind [] = none
expected_in kind (m ∷ rest) =
    first_of (indicator_of kind m.spec.status_indicators) (expected_in kind rest)

abbrev pub or_text : String → Result String → String
or_text other (ok s) = s
or_text other (err e) = other

abbrev pub or_null : Option Value → Value
or_null none = null
or_null (some v) = v

module _ {W C R : Type 0} (helm : Helmer W C) (platform : Platform W R) where
  -- `UnstructuredAsLabels.Has`
  unfoldable pub has_label : Resource → String → Bool
  unfolding split_dots
  has_label res label = elim (platform.nested_field res.content (split_dots label)) [
    | ok (some v) ↦ true
    | _ ↦ false
  ]

  -- The text of a field of any type; an absent field is marshalled as null.
  abbrev pub field_text : Result (Option Value) → String
  field_text (err e) = ""
  field_text (ok o) = or_text "" (platform.marshal (or_null o))

  -- `UnstructuredAsLabels.Get`
  unfoldable pub get_label : Resource → String → String
  unfolding split_dots
  get_label res label =
      or_text (field_text (platform.nested_field res.content (split_dots label)))
        (platform.nested_string res.content (split_dots label))

  unfoldable pub all_match : Resource → List R → Bool
  unfolding has_label get_label
  all_match res [] = true
  all_match res (r ∷ rest) =
      let more = all_match res rest in
      if not (platform.requirement_matches r (has_label res) (get_label res)) then false else more

  unfoldable pub matches_condition : Resource → String → Bool
  unfolding all_match
  matches_condition res condition = elim (platform.parse_selector condition) [
    | err e ↦ false
    | ok requirements ↦ all_match res requirements
  ]

  unfoldable pub get_error_message : Resource → String → String
  unfolding has_label get_label
  get_error_message res path = if not (has_label res path) then "" else get_label res path

  -- The status by kstatus.
  unfoldable pub computed_status : Result (Computed × String) → ConditionStatus × String
  computed_status (err e) = (is_unknown, "")
  computed_status (ok (failed_status, message)) = (is_false, message)
  computed_status (ok (current_status, message)) = (is_true, "")
  computed_status (ok (other_status, message)) = (is_unknown, "")

  -- The status by an indicator, if there is one.
  unfoldable pub indicated_status :
      Resource → Option ResourceStatusIndicator → ConditionStatus × String
  unfolding computed_status matches_condition get_error_message
  indicated_status res none = computed_status (platform.compute res)
  indicated_status res (some i) =
      if matches_condition res i.success_condition
      then (is_true, "")
      else if matches_condition res i.failure_condition
      then (is_false, get_error_message res i.error_message)
      else (is_unknown, "")

  unfoldable pub check_resource_status : W → Resource → ConditionStatus × String
  unfolding expected_in indicated_status
  check_resource_status w res = elim (platform.list_modules w) [
    | err e ↦ (is_unknown, "")
    | ok modules ↦ indicated_status res (expected_in res.kind modules)
  ]

  -- The loop over the resources: out at the first failure, or the number of the ready ones.
  unfoldable pub count_ready : W → List Resource → ℕ → Result ℕ
  unfolding check_resource_status
  count_ready w [] n = ok n
  count_ready w (res ∷ rest) n =
      let (state, message) = check_resource_status w res in
      elim state [
        | is_false ↦ err message
        | is_true ↦ count_ready w rest (n + 1)
        | _ ↦ count_ready w rest n
      ]

  unfoldable pub check_release_status : W → String → String → ConditionStatus × String
  unfolding count_ready
  check_release_status w release namespace = elim (helm.get_resources w namespace release) [
    | err e ↦ (is_unknown, "")
    | ok resources ↦ elim (count_ready w resources 0) [
      | err message ↦ (is_false, message)
      | ok n ↦ if nat_eq n (length resources) then (is_true, "") else (is_unknown, "")
    ]
  ]
