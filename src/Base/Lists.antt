-- ===== src/Base/Lists.antt =====
-- Lists measured and indexed by native numbers, and membership.
use Prim.Native.Nat.{ℕ, zero, suc, ◌+◌}
use mathlib.Core.Path.{◌≡◌, refl, sym, subst}
use mathlib.Core.Logic.{inl, inr}
use mathlib.Core.Bool.{Bool, true, false, not}
use mathlib.Core.Option.{Option, none, some}
use mathlib.Core.List.Memᴰ
use mathlib.Core.List.{List, [], ◌∷◌, ◌++◌, Memᴰ}
use native.Mathlib.Omega.{arith}
use mesh_for_data.Base.Tests.{if◌then◌else◌, Bool-cases}

module _ {ℓ} {A : Type ℓ} where
  abbrev pub length : List A → ℕ
  length [] = 0
  length (x ∷ xs) = suc (length xs)

  abbrev pub get_elem? : List A → ℕ → Option A
  get_elem? [] i = none
  get_elem? (x ∷ xs) zero = some x
  get_elem? (x ∷ xs) (suc i) = get_elem? xs i

  abbrev pub get_or : List A → ℕ → A → A
  get_or [] i d = d
  get_or (x ∷ xs) zero d = x
  get_or (x ∷ xs) (suc i) d = get_or xs i d

  abbrev pub is_empty : List A → Bool
  is_empty [] = true
  is_empty (x ∷ xs) = false

  pub length-append : (xs ys : List A) → length (xs ++ ys) ≡ length xs + length ys
  length-append [] ys = omega arith
  length-append (x ∷ xs) ys = omega (arith, length-append xs ys)

-- A predicate that holds of every entry.
abbrev pub All {ℓ κ} : {A : Type ℓ} → (A → Type κ) → List A → Type κ
All P [] = Unit
All P (x ∷ xs) = P x × All P xs

pub All-mem {ℓ κ} : {A : Type ℓ} (P : A → Type κ) {a : A} (xs : List A) → All P xs → Memᴰ a xs → P a
All-mem P [] h m = absurd (Memᴰ.not-nil m)
All-mem P (x ∷ xs) h (Memᴰ.head e) = subst P (sym e) h.0
All-mem P (x ∷ xs) h (Memᴰ.tail m) = All-mem P xs h.1 m

pub All-map {ℓ κ ι} :
    {A : Type ℓ} (P : A → Type κ) (Q : A → Type ι) (xs : List A)
    → ((a : A) → P a → Q a)
    → All P xs
    → All Q xs
All-map P Q [] f h = tt
All-map P Q (x ∷ xs) f h = (f x h.0, All-map P Q xs f h.1)

pub All-append {ℓ κ} :
    {A : Type ℓ} (P : A → Type κ) (xs ys : List A) → All P xs → All P ys → All P (xs ++ ys)
All-append P [] ys h k = k
All-append P (x ∷ xs) ys h k = (h.0, All-append P xs ys h.1 k)

-- Membership in a list that a guard keeps or drops.
module _ {ℓ} {A : Type ℓ} where
  pub mem-if :
      (b : Bool) {a : A} {xs : List A} → Memᴰ a (if b then xs else []) → (b ≡ true) × Memᴰ a xs
  mem-if true m = (refl, m)
  mem-if false m = absurd (Memᴰ.not-nil m)

  pub mem-if_not :
      (b : Bool) {a : A} {xs : List A} → Memᴰ a (if not b then [] else xs) → (b ≡ true) × Memᴰ a xs
  mem-if_not true m = (refl, m)
  mem-if_not false m = absurd (Memᴰ.not-nil m)

-- The entries that pass a test, in order.
module _ {ℓ} {A : Type ℓ} (test : A → Bool) where
  unfoldable pub keep : List A → List A
  keep [] = []
  keep (x ∷ xs) = let rest = keep xs in if test x then x ∷ rest else rest

  pub mem-keep : {a : A} (xs : List A) → Memᴰ a xs → test a ≡ true → Memᴰ a (keep xs)
  unfolding keep
  mem-keep [] m h = absurd (Memᴰ.not-nil m)
  mem-keep (x ∷ xs) (Memᴰ.head e) h = rw (← e, h) (Memᴰ.head refl)
  mem-keep (x ∷ xs) (Memᴰ.tail m) h = elim (Bool-cases (test x)) [
    | inl y ↦ rw y (Memᴰ.tail (mem-keep xs m h))
    | inr n ↦ rw n (mem-keep xs m h)
  ]

  pub keep-mem : {a : A} (xs : List A) → Memᴰ a (keep xs) → Memᴰ a xs × (test a ≡ true)
  unfolding keep
  keep-mem [] m = absurd (Memᴰ.not-nil m)
  keep-mem (x ∷ xs) m = elim (Bool-cases (test x)) [
    | inl y ↦ elim (Memᴰ.cases_cons (rw y at m)) [
      | inl e ↦ (Memᴰ.head e, rw e y)
      | inr k ↦ let (old, h) = keep-mem xs k in (Memᴰ.tail old, h)
    ]
    | inr n ↦ let (old, h) = keep-mem xs (rw n at m) in (Memᴰ.tail old, h)
  ]
