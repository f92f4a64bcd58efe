-- ===== src/Blueprints/Unify.antt =====
-- What `refine_instances` of Blueprints.antt keeps of the instances.
use mathlib.Core.List.Memᴰ
use mathlib.Core.Option.{some-injective}
use mesh_for_data.Base.{
  String, ◌==◌, ◌≡◌, refl, ap, subst, sym, ◌∙◌, Bool-cases, true, false, ◌⊎◌, inl, inr, Option,
  none, some, List, [], ◌∷◌, ◌++◌, map, Memᴰ, All, All-mem, eq_iff, eq_refl,
}
use mesh_for_data.Base.Maps.{Map, insert, lookup, lookup-insert}
use mesh_for_data.Blueprints.{
  ModuleInstanceSpec, is_asset_scope, refine, refine_instances, unified_key, unify, unify_with,
}

-- Every entry of the first list is one of the second.
abbrev pub Within {ℓ} : {A : Type ℓ} → List A → List A → Type ℓ
Within xs ys = All (λ x. Memᴰ x ys) xs

Within-map {ℓ} :
    {A : Type ℓ} (xs ys zs : List A)
    → Within xs ys
    → ((a : A) → Memᴰ a ys → Memᴰ a zs)
    → Within xs zs
Within-map [] ys zs h f = tt
Within-map (x ∷ xs) ys zs h f = (f x h.0, Within-map xs ys zs h.1 f)

Within-refl {ℓ} : {A : Type ℓ} (xs : List A) → Within xs xs
Within-refl [] = tt
Within-refl (x ∷ xs) =
    (Memᴰ.head refl, Within-map xs xs (x ∷ xs) (Within-refl xs) (λ a m. Memᴰ.tail m))

Within-trans {ℓ} : {A : Type ℓ} (xs ys zs : List A) → Within xs ys → Within ys zs → Within xs zs
Within-trans xs ys zs h k = Within-map xs ys zs h (λ a m. All-mem (λ x. Memᴰ x zs) ys k m)

Within-left {ℓ} : {A : Type ℓ} (xs ys : List A) → Within xs (xs ++ ys)
Within-left xs ys = Within-map xs xs (xs ++ ys) (Within-refl xs) (λ a m. Memᴰ.append_left ys m)

Within-right {ℓ} : {A : Type ℓ} (xs ys : List A) → Within ys (xs ++ ys)
Within-right xs ys = Within-map ys ys (xs ++ ys) (Within-refl ys) (λ a m. Memᴰ.append_right xs m)

-- The second instance stands for the first: it has its key, its read and write arguments and its
-- assets.
pub record Covers (i j : ModuleInstanceSpec) : Type 0 where
  pub key : unified_key j ≡ unified_key i
  pub read : Within i.args.read j.args.read
  pub write : Within i.args.write j.args.write
  pub assets : Within i.asset_ids j.asset_ids

Covers-refl : (i : ModuleInstanceSpec) → Covers i i
Covers-refl i = record {
  key = refl;
  read = Within-refl i.args.read;
  write = Within-refl i.args.write;
  assets = Within-refl i.asset_ids;
}

Covers-trans : (i j k : ModuleInstanceSpec) → Covers i j → Covers j k → Covers i k
Covers-trans i j k a b = record {
  key = b.key ∙ a.key;
  read = Within-trans i.args.read j.args.read k.args.read a.read b.read;
  write = Within-trans i.args.write j.args.write k.args.write a.write b.write;
  assets = Within-trans i.asset_ids j.asset_ids k.asset_ids a.assets b.assets;
}

Covers-unify_first : (i j : ModuleInstanceSpec) → Covers i (unify i j)
unfolding unify unified_key
Covers-unify_first i j = record {
  key = refl;
  read = Within-left i.args.read j.args.read;
  write = Within-left i.args.write j.args.write;
  assets = Within-left i.asset_ids j.asset_ids;
}

Covers-unify_next :
    (i j : ModuleInstanceSpec) → unified_key i ≡ unified_key j → Covers j (unify i j)
unfolding unify unified_key
Covers-unify_next i j same = record {
  key = same;
  read = Within-right i.args.read j.args.read;
  write = Within-right i.args.write j.args.write;
  assets = Within-right i.asset_ids j.asset_ids;
}

-- The map holds instances under their own keys.
abbrev IsKeyed : Map ModuleInstanceSpec → Type 0
IsKeyed m = (k : String) (j : ModuleInstanceSpec) → lookup k m ≡ some j → unified_key j ≡ k

-- The map has an instance that stands for the given one.
abbrev Has : Map ModuleInstanceSpec → ModuleInstanceSpec → Type 0
Has m i = (j : ModuleInstanceSpec) × (lookup (unified_key i) m ≡ some j) × Covers i j

-- The map with one more instance unified.
abbrev added : ModuleInstanceSpec → Map ModuleInstanceSpec → Map ModuleInstanceSpec
added i m = insert (unified_key i) (unify_with i (lookup (unified_key i) m)) m

unify_with-Covers :
    (m : Map ModuleInstanceSpec) (i : ModuleInstanceSpec)
    → IsKeyed m
    → (o : Option ModuleInstanceSpec) → lookup (unified_key i) m ≡ o
    → Covers i (unify_with i o)
unify_with-Covers m i keyed none e = Covers-refl i
unify_with-Covers m i keyed (some j) e = Covers-unify_next j i (keyed (unified_key i) j e)

lookup-added_self :
    (m : Map ModuleInstanceSpec) (i : ModuleInstanceSpec)
    → lookup (unified_key i) (added i m) ≡ some (unify_with i (lookup (unified_key i) m))
lookup-added_self m i =
    lookup-insert m (unified_key i) (unified_key i) (unify_with i (lookup (unified_key i) m))
    ∙ rw (eq_refl (unified_key i)) refl

added-Has : (m : Map ModuleInstanceSpec) (i : ModuleInstanceSpec) → IsKeyed m → Has (added i m) i
added-Has m i keyed = (
  unify_with i (lookup (unified_key i) m),
  lookup-added_self m i,
  unify_with-Covers m i keyed (lookup (unified_key i) m) refl,
)

added-IsKeyed :
    (m : Map ModuleInstanceSpec) (i : ModuleInstanceSpec) → IsKeyed m → IsKeyed (added i m)
added-IsKeyed m i keyed k j e = elim (Bool-cases (unified_key i == k)) [
  | inl same ↦
      let here : k ≡ unified_key i = sym ((eq_iff (unified_key i) k).0 same) in
      let found : some (unify_with i (lookup (unified_key i) m)) ≡ some j =
        sym (lookup-added_self m i) ∙ ap (λ x. lookup x (added i m)) (sym here) ∙ e in
      subst (λ x. unified_key x ≡ k) (some-injective _ _ found)
        ((unify_with-Covers m i keyed (lookup (unified_key i) m) refl).key ∙ sym here)
  | inr other ↦ keyed k j (
      sym (
        lookup-insert m (unified_key i) k (unify_with i (lookup (unified_key i) m)) ∙ rw other refl)
      ∙ e)
]

-- What was in the map is still stood for.
added-kept :
    (m : Map ModuleInstanceSpec) (i old : ModuleInstanceSpec) → Has m old → Has (added i m) old
added-kept m i old (j, e, c) = elim (Bool-cases (unified_key i == unified_key old)) [
  | inl same ↦
      let here : unified_key old ≡ unified_key i =
        sym ((eq_iff (unified_key i) (unified_key old)).0 same) in
      let found : lookup (unified_key i) m ≡ some j = ap (λ x. lookup x m) (sym here) ∙ e in
      (
        unify j i,
        ap (λ x. lookup x (added i m)) here
            ∙ lookup-added_self m i
            ∙ ap (λ o. some (unify_with i o)) found,
        Covers-trans old j (unify j i) c (Covers-unify_first j i),
      )
  | inr other ↦ (
    j,
    lookup-insert m (unified_key i) (unified_key old) (unify_with i (lookup (unified_key i) m))
        ∙ rw other e,
    c,
  )
]

refine-kept :
    (l : List ModuleInstanceSpec) (m : Map ModuleInstanceSpec) (i : ModuleInstanceSpec)
    → Has m i
    → Has (refine l m).1 i
unfolding refine
refine-kept [] m i h = h
refine-kept (x ∷ rest) m i h = elim (Bool-cases (is_asset_scope x.scope)) [
  | inl single ↦ rw single (refine-kept rest m i h)
  | inr shared ↦ rw shared (refine-kept rest (added x m) i (added-kept m x i h))
]

refine-own :
    (l : List ModuleInstanceSpec) (m : Map ModuleInstanceSpec) (i : ModuleInstanceSpec)
    → Memᴰ i l
    → is_asset_scope i.scope ≡ true
    → Memᴰ i (refine l m).0
unfolding refine
refine-own [] m i k own = absurd (Memᴰ.not-nil k)
refine-own (x ∷ rest) m i (Memᴰ.head e) own =
    let single : is_asset_scope x.scope ≡ true =
      subst (λ (y : ModuleInstanceSpec). is_asset_scope y.scope ≡ true) e own in
    rw single (Memᴰ.head e)
refine-own (x ∷ rest) m i (Memᴰ.tail k) own = elim (Bool-cases (is_asset_scope x.scope)) [
  | inl single ↦ rw single (Memᴰ.tail (refine-own rest m i k own))
  | inr shared ↦ rw shared (refine-own rest (added x m) i k own)
]

refine-joined :
    (l : List ModuleInstanceSpec) (m : Map ModuleInstanceSpec) (i : ModuleInstanceSpec)
    → IsKeyed m
    → Memᴰ i l
    → is_asset_scope i.scope ≡ false
    → Has (refine l m).1 i
unfolding refine
refine-joined [] m i keyed k joined = absurd (Memᴰ.not-nil k)
refine-joined (x ∷ rest) m i keyed (Memᴰ.head e) joined =
    let shared : is_asset_scope x.scope ≡ false =
      subst (λ (y : ModuleInstanceSpec). is_asset_scope y.scope ≡ false) e joined in
    rw shared (
      refine-kept rest (added x m) i (subst (λ y. Has (added x m) y) (sym e) (added-Has m x keyed)))
refine-joined (x ∷ rest) m i keyed (Memᴰ.tail k) joined =
    elim (Bool-cases (is_asset_scope x.scope)) [
      | inl single ↦ rw single (refine-joined rest m i keyed k joined)
      | inr shared ↦ rw shared (refine-joined rest (added x m) i (added-IsKeyed m x keyed) k joined)
    ]

lookup-mem :
    (m : Map ModuleInstanceSpec) (key : String) (j : ModuleInstanceSpec)
    → lookup key m ≡ some j
    → Memᴰ j (map (λ (e : String × ModuleInstanceSpec). e.1) m)
unfolding lookup
lookup-mem [] key j e = cc
lookup-mem ((k, x) ∷ rest) key j e = elim (Bool-cases (k == key)) [
  | inl same ↦ Memᴰ.head (sym (some-injective _ _ (rw same at e)))
  | inr other ↦ Memᴰ.tail (lookup-mem rest key j (rw other at e))
]

no_entry-IsKeyed : IsKeyed []
unfolding lookup
no_entry-IsKeyed k j e = cc

-- Every given instance has its own entry in the result if its scope is an asset, and otherwise the
-- result has an instance with the same key (module and cluster) and all read and write arguments and all
-- assets of the given one.
pub refine_instances-Covers :
    (instances : List ModuleInstanceSpec) (i : ModuleInstanceSpec)
    → Memᴰ i instances
    → ((is_asset_scope i.scope ≡ true) × Memᴰ i (refine_instances instances))
      ⊎ ((is_asset_scope i.scope ≡ false)
          × ((j : ModuleInstanceSpec) × Memᴰ j (refine_instances instances) × Covers i j))
unfolding refine_instances
refine_instances-Covers instances i k =
    let values = map (λ (e : String × ModuleInstanceSpec). e.1) (refine instances []).1 in
    elim (Bool-cases (is_asset_scope i.scope)) [
      | inl own ↦ inl (own, Memᴰ.append_left values (refine-own instances [] i k own))
      | inr joined ↦
          let (j, e, covers) = refine-joined instances [] i no_entry-IsKeyed k joined in
          inr (
            joined,
            (
              j,
              Memᴰ.append_right (refine instances []).0
                  (lookup-mem (refine instances []).1 (unified_key i) j e),
              covers,
            ),
          )
    ]
