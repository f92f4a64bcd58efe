-- ===== src/Releases/Nested.antt =====
-- What `set_path` of Releases.antt makes of nested maps.
use mathlib.Core.Option.{some-injective}
use mesh_for_data.Base.{
  inl, inr, subst, String, ◌==◌, ◌≡◌, refl, ◌∙◌, false, Option, Option-cases, none, some, List, [],
  ◌∷◌, map_some, arith, eq_refl,
}
use mesh_for_data.Base.Json.{Fields, Value, get-set_field, get_field, object, set_field}
use mesh_for_data.Releases.{set_path, sub_map}

-- The value under the nested keys.
unfoldable pub get_path : List String → Fields → Option Value
unfolding get_field
get_path [] obj = none
get_path (k ∷ []) obj = get_field k obj
get_path (k ∷ j ∷ rest) obj = elim (get_field k obj) [
  | some (object sub) ↦ get_path (j ∷ rest) sub
  | _ ↦ none
]

get_field-set_self :
    (obj : Fields) (k : String) (new : Value) → get_field k (set_field k new obj) ≡ some new
get_field-set_self obj k new = get-set_field obj k k new ∙ rw (eq_refl k) refl

-- What a change of a map under the rest of the keys gives.
get_path-sub :
    (k j : String) (rest : List String) (obj sub : Fields) (new : Value)
    → get_path (j ∷ rest) sub ≡ some new
    → get_path (k ∷ j ∷ rest) (set_field k (object sub) obj) ≡ some new
unfolding get_path
get_path-sub k j rest obj sub new h = rw (get_path, get_field-set_self obj k (object sub)) h

map_some_inv {ℓ κ} :
    {A : Type ℓ} {B : Type κ} (f : A → B) (o : Option A) (b : B)
    → map_some f o ≡ some b
    → (a : A) × (o ≡ some a) × (some (f a) ≡ some b)
map_some_inv f none b h = cc
map_some_inv f (some a) b h = (a, refl, h)

set_path_cons :
    (k j : String) (rest : List String) (new : Value) (obj changed : Fields)
    → set_path (k ∷ j ∷ rest) new obj ≡ some changed
    → (old : Fields) × (sub : Fields) × (sub_map (get_field k obj) ≡ some old)
      × (set_path (j ∷ rest) new old ≡ some sub)
      × (set_field k (object sub) obj ≡ changed)
unfolding set_path
set_path_cons k j rest new obj changed h = elim (Option-cases (sub_map (get_field k obj))) [
  | inl stuck ↦ absurd (ground arith)
  | inr (old, e) ↦
      let (sub, more, made) =
        map_some_inv (λ (x : Fields). set_field k (object x) obj) (set_path (j ∷ rest) new old)
          changed (rw e at h) in
      (old, sub, e, more, some-injective _ _ made)
]

-- If the nested keys can be set, then they find the new value afterwards.
pub get_path-set_path :
    (k : String) (rest : List String) (new : Value) (obj changed : Fields)
    → set_path (k ∷ rest) new obj ≡ some changed
    → get_path (k ∷ rest) changed ≡ some new
get_path-set_path k [] new obj changed h =
    let same : set_field k new obj ≡ changed = some-injective _ _ (unfold set_path in h) in
    unfold get_path in subst (λ x. get_field k x ≡ some new) same (get_field-set_self obj k new)
get_path-set_path k (j ∷ rest) new obj changed h =
    let (old, sub, e, more, made) = set_path_cons k j rest new obj changed h in
    subst (λ x. get_path (k ∷ j ∷ rest) x ≡ some new) made
      (get_path-sub k j rest obj sub new (get_path-set_path j rest new old sub more))

-- Setting nested keys changes no other entry of the outer map.
pub get_field-set_path :
    (k other : String) (rest : List String) (new : Value) (obj changed : Fields)
    → set_path (k ∷ rest) new obj ≡ some changed
    → (k == other) ≡ false
    → get_field other changed ≡ get_field other obj
get_field-set_path k other [] new obj changed h apart =
    let same : set_field k new obj ≡ changed = some-injective _ _ (unfold set_path in h) in
    subst (λ x. get_field other x ≡ get_field other obj) same
      (get-set_field obj k other new ∙ rw apart refl)
get_field-set_path k other (j ∷ rest) new obj changed h apart =
    let (old, sub, e, more, made) = set_path_cons k j rest new obj changed h in
    subst (λ x. get_field other x ≡ get_field other obj) made
      (get-set_field obj k other (object sub) ∙ rw apart refl)
