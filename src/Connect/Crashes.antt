-- ===== src/Connect/Crashes.antt =====
-- What the conversions of Connect/Responses.antt make of removals and encryptions.
use mesh_for_data.Base.{
  String, ◌≡◌, refl, sym, ap, ◌∙◌, subst, ◌⊎◌, inl, inr, Option, Option-cases, none, some, List, [],
  ◌∷◌, arith, Memᴰ,
}
use mathlib.Core.List.Memᴰ
use mathlib.Core.Option.{some-injective}
use mesh_for_data.Base.Json.{Items, Value, array, cons, get_field}
use mesh_for_data.Api.Taxonomy.{Action}
use mesh_for_data.Policy.{GetPolicyDecisionsResponse, ResultItem}
use mesh_for_data.Connect.{
  AccessOperation, DatasetDecision, EnforcementAction, equal_fold, unmarshal_action, get_text,
  as_text,
}
use mesh_for_data.Connect.Responses.{
  column_action, cons_result, convert_actions, convert_datasets, convert_grpc_resp, convert_item,
  convert_items, convert_open_api_resp, convert_operations, enforced, column_actions, column_fields,
  first_policy, next_policies, for_array, for_columns, for_texts, as_decisions, join_parts,
  texts_of, Part,
}

-- An action whose conversion panics.
abbrev IsBad : EnforcementAction → Type 0
IsBad e = enforced e.level e.name e.args ≡ none

cons_result-none :
    (name policy : String) (o : Option (List ResultItem)) → cons_result name policy none o ≡ none
cons_result-none name policy none = refl
cons_result-none name policy (some l) = refl

cons_result_rest :
    (name policy : String) (a : Option Action) → cons_result name policy a none ≡ none
cons_result_rest name policy none = refl
cons_result_rest name policy (some a) = refl

convert_actions-IsBad :
    {e : EnforcementAction} (l : List EnforcementAction) (policies : List String)
    → Memᴰ e l
    → IsBad e
    → convert_actions l policies ≡ none
unfolding convert_actions
convert_actions-IsBad [] policies m h = absurd (Memᴰ.not-nil m)
convert_actions-IsBad (x ∷ rest) policies (Memᴰ.head p) h =
    let bad : enforced x.level x.name x.args ≡ none = subst IsBad p h in
    rw bad (
      cons_result-none x.name (first_policy policies)
        (convert_actions rest (next_policies policies)))
convert_actions-IsBad (x ∷ rest) policies (Memᴰ.tail m) h =
    rw (convert_actions-IsBad rest (next_policies policies) m h)
      (cons_result_rest x.name (first_policy policies) (enforced x.level x.name x.args))

-- The item asks to remove or encrypt at least one column.
abbrev pub IsColumnwise : ResultItem → Type 0
IsColumnwise item =
    ((item.action.name ≡ "remove") ⊎ (item.action.name ≡ "encrypt"))
    × ((v : Value) × (rest : Items) × (get_field "columns" item.action.additional_properties
          ≡ some (array (cons v rest))))

abbrev HasBad : Part → Type 0
HasBad p = (e : EnforcementAction) × (Memᴰ e p.0) × IsBad e

for_texts-HasBad :
    (name id policy : String) (v : Value) (rest : Items) (p : Part)
    → ((column : String) → IsBad (column_action name id column))
    → for_texts name id policy (texts_of (cons v rest)) ≡ some p
    → HasBad p
unfolding texts_of for_columns
for_texts-HasBad name id policy v rest p bad h = elim (Option-cases (as_text v)) [
  | inl other ↦ absurd (ground arith)
  | inr (s, given) ↦ elim (Option-cases (texts_of rest)) [
    | inl other ↦ absurd (ground arith)
    | inr (l, more) ↦
        let part = for_columns name id policy (s ∷ l) in
        let there : some part ≡ for_texts name id policy (texts_of (cons v rest)) =
          rw (given, more) refl in
        subst HasBad (some-injective _ _ (there ∙ h))
          (column_action name id s, Memᴰ.head refl, bad s)
  ]
]

join_parts-HasBad :
    (o q : Option Part) (p : Part)
    → join_parts o q ≡ some p
    → ((r : Part) → o ≡ some r → HasBad r) ⊎ ((r : Part) → q ≡ some r → HasBad r)
    → HasBad p
join_parts-HasBad none q p h k = absurd (ground arith)
join_parts-HasBad (some r) none p h k = absurd (ground arith)
join_parts-HasBad (some (xs, ps)) (some (ys, qs)) p h (inl f) =
    let (e, m, bad) = f (xs, ps) refl in
    subst HasBad (some-injective _ _ h) (e, Memᴰ.append_left ys m, bad)
join_parts-HasBad (some (xs, ps)) (some (ys, qs)) p h (inr f) =
    let (e, m, bad) = f (ys, qs) refl in
    subst HasBad (some-injective _ _ h) (e, Memᴰ.append_right xs m, bad)

column_actions-HasBad :
    (name id : String) (item : ResultItem) (v : Value) (rest : Items) (p : Part)
    → ((column : String) → IsBad (column_action name id column))
    → get_field "columns" item.action.additional_properties ≡ some (array (cons v rest))
    → column_actions name id item ≡ some p
    → HasBad p
unfolding column_actions
column_actions-HasBad name id item v rest p bad given h =
    for_texts-HasBad name id item.policy v rest p bad
      (sym (ap (for_array name id item.policy) given) ∙ h)

convert_item-HasBad :
    (item : ResultItem) (p : Part) → IsColumnwise item → convert_item item ≡ some p → HasBad p
unfolding convert_item equal_fold enforced column_fields unmarshal_action get_text get_field
convert_item-HasBad item p (inl removed, (v, rest, given)) h =
    column_actions-HasBad "removed" "removed-ID" item v rest p (λ column. refl) given
      (rw removed refl ∙ h)
convert_item-HasBad item p (inr encrypted, (v, rest, given)) h =
    column_actions-HasBad "encrypted" "encrypted-ID" item v rest p (λ column. refl) given
      (rw encrypted refl ∙ h)

convert_items-HasBad :
    {item : ResultItem} (l : List ResultItem) (p : Part)
    → Memᴰ item l
    → IsColumnwise item
    → convert_items l ≡ some p
    → HasBad p
unfolding convert_items
convert_items-HasBad [] p m k h = absurd (Memᴰ.not-nil m)
convert_items-HasBad (x ∷ rest) p (Memᴰ.head e) k h =
    join_parts-HasBad (convert_item x) (convert_items rest) p h
      (inl (λ r. convert_item-HasBad x r (subst IsColumnwise e k)))
convert_items-HasBad (x ∷ rest) p (Memᴰ.tail m) k h =
    join_parts-HasBad (convert_item x) (convert_items rest) p h
      (inr (λ r. convert_items-HasBad rest r m k))

-- Where a response has an item that asks to remove or to encrypt at least one column, and it is
-- converted to messages without a failure, the conversion of these back panics.
pub convert_grpc_resp-convert_open_api_resp_panics :
    (response : GetPolicyDecisionsResponse) (item : ResultItem) (new_id dataset_id : String)
    (op : AccessOperation) (decisions : List DatasetDecision)
    → Memᴰ item response.result
    → IsColumnwise item
    → convert_open_api_resp response dataset_id op ≡ some decisions
    → convert_grpc_resp new_id decisions ≡ none
unfolding convert_open_api_resp convert_grpc_resp convert_datasets convert_operations
convert_grpc_resp-convert_open_api_resp_panics response item new_id dataset_id op decisions m k h =
    elim (Option-cases (convert_items response.result)) [
      | inl other ↦ absurd (ground arith)
      | inr (p, given) ↦
          let (e, at, bad) = convert_items-HasBad response.result p m k given in
          let panic = convert_actions-IsBad p.0 p.1 at bad in
          subst (λ d. convert_grpc_resp new_id d ≡ none)
            (some-injective _ _ (sym (ap (as_decisions dataset_id op) given) ∙ h)) (rw panic refl)
    ]
