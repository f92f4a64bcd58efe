-- ===== src/Datasets/Tests.antt =====
-- The theorem of Datasets at a client that keeps one object.
use mesh_for_data.Base.{
  String, ◌==◌, ◌≡◌, refl, sym, ap, subst, Option, none, some, List, [], ◌∷◌, Result, ok, err,
  arith, Bool-cases, inl, inr,
}
use mathlib.Core.Option.{some-injective}
use mesh_for_data.Base.Json.{Fields, Value, end, field, get_field, object, text}
use mesh_for_data.Base.Maps.{Map, lookup}
use mesh_for_data.Generate.{NamespacedName, ProvisionedBucket}
use mesh_for_data.Generate.Service.{labels_value}
use mesh_for_data.Datasets.{Client, Dataset, create_dataset}
use mesh_for_data.Datasets.Again.{HasCreated, HasFields, create_dataset_again}

abbrev text_or_none : Option Value → Option String
text_or_none (some (text s)) = some s
text_or_none _ = none

abbrev fields_or_end : Option Value → Fields
fields_or_end (some (object f)) = f
fields_or_end _ = end

unfoldable read_path : Fields → List String → Option String
unfolding get_field
read_path content [] = none
read_path content (key ∷ []) = text_or_none (get_field key content)
read_path content (key ∷ next ∷ rest) =
    read_path (fields_or_end (get_field key content)) (next ∷ rest)

abbrev kept : Option Dataset → Result Dataset
kept none = err "not found"
kept (some d) = ok d

abbrev client : Client (Option Dataset)
client = record {
  get = λ w ref. kept w;
  create = λ w d. (some d, none);
  update = λ w d. (some d, none);
  delete = λ w d. (none, none);
  nested_string = read_path;
  set_nested_string_map = λ content values path.
      ok (field "spec" (object (field "local" (object (labels_value values)) end)) end);
}

get_field-labels_value :
    (values : Map String) (key v : String)
    → lookup key values ≡ some v
    → get_field key (labels_value values) ≡ some (text v)
unfolding get_field labels_value lookup
get_field-labels_value [] key v h = absurd (ground arith)
get_field-labels_value ((name, s) ∷ rest) key v h = elim (Bool-cases (name == key)) [
  | inl same ↦
      let e : some s ≡ some v = ground arith in
      rw same (ap (λ x. some (text x)) (some-injective _ _ e))
  | inr other ↦ rw other (get_field-labels_value rest key v (ground arith))
]

abbrev or_end : Result Fields → Fields
or_end (ok f) = f
or_end (err e) = end

client-HasFields : HasFields client
unfolding read_path get_field
client-HasFields values content key v h found =
    subst (λ c. read_path c ("spec" ∷ "local" ∷ key ∷ []) ≡ some v) (ap or_end h)
      (ap text_or_none (get_field-labels_value values key v found))

abbrev or_dataset : Dataset → Option Dataset → Dataset
or_dataset d none = d
or_dataset d (some e) = e

client-HasCreated : HasCreated client
client-HasCreated w w' d h =
    let e : some d ≡ w' = ap (λ (p : Option Dataset × Option String). p.0) h in
    (d, sym (ap kept e), λ path. refl)

abbrev bucket : ProvisionedBucket
bucket = record {
  name = "bucket";
  endpoint = "http://s3.spain";
  secret_ref = record { namespace = "system"; name = "account" };
}

abbrev spot : NamespacedName
spot = record { namespace = "system"; name = "bucket" }

created_once :
    create_dataset client spot bucket spot none
    ≡ ((create_dataset client spot bucket spot none).0, none)
unfolding create_dataset labels_value
created_once = refl

create_dataset_again_example :
    create_dataset client spot bucket spot (create_dataset client spot bucket spot none).0
    ≡ ((create_dataset client spot bucket spot none).0, none)
create_dataset_again_example =
    create_dataset_again client spot spot bucket none
      (create_dataset client spot bucket spot none).0 client-HasFields client-HasCreated
      created_once
