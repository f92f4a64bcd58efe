-- ===== src/Base/Maps.antt =====
-- Go's `map[string]V` as a list of entries in the order in which `range` visits them. Go leaves
-- that order open, so a theorem over all lists is one over all orders.
use Prim.Native.String.{String}
use mathlib.Core.Path.{◌≡◌, refl, subst}
use mathlib.Core.Bool.{Bool, false}
use mathlib.Core.Logic.{inl, inr}
use mathlib.Core.Option.{Option, none, some}
use mathlib.Core.List.{List, [], ◌∷◌}
use native.Mathlib.Omega.{arith}
use text.Mathlib.Text.{◌==◌}
use text.Mathlib.TextEquality.{eq_iff}
use mesh_for_data.Base.Tests.{Bool-cases, if◌then◌else◌, is_some}

abbrev pub Map {ℓ} : Type ℓ → Type ℓ
Map V = List (String × V)

abbrev pub or_zero {ℓ} : {V : Type ℓ} → V → Option V → V
or_zero z none = z
or_zero z (some v) = v

module _ {ℓ} {V : Type ℓ} where
  -- `m[key]`, with `none` for a key that is not there.
  unfoldable pub lookup : String → Map V → Option V
  lookup key [] = none
  lookup key (entry ∷ rest) =
      let later = lookup key rest in if entry.0 == key then some entry.1 else later

  -- `m[key] = new`: an entry is overwritten where it stands, and a new one is added at the end.
  unfoldable pub insert : String → V → Map V → Map V
  insert key new [] = (key, new) ∷ []
  insert key new (entry ∷ rest) =
      let later = insert key new rest in if entry.0 == key then (key, new) ∷ rest else entry ∷ later

  -- `delete(m, key)`
  unfoldable pub delete : String → Map V → Map V
  delete key [] = []
  delete key (entry ∷ rest) =
      let later = delete key rest in if entry.0 == key then later else entry ∷ later

  abbrev pub has : String → Map V → Bool
  has key m = is_some (lookup key m)

  -- `m[key]` where the zero value stands for a key that is not there.
  abbrev pub get_or_zero : V → String → Map V → V
  get_or_zero z key m = or_zero z (lookup key m)

  pub lookup-insert :
      (m : Map V) (key other : String) (new : V)
      → lookup other (insert key new m) ≡ (if key == other then some new else lookup other m)
  unfolding lookup insert
  lookup-insert [] key other new = refl
  lookup-insert (entry ∷ rest) key other new = ground (
    arith,
    lookup-insert rest key other new,
    eq_iff entry.0 key,
    eq_iff entry.0 other,
    eq_iff key other,
  )

  pub lookup-delete :
      (m : Map V) (key other : String)
      → lookup other (delete key m) ≡ (if key == other then none else lookup other m)
  unfolding lookup delete
  lookup-delete [] key other = ground arith
  lookup-delete (entry ∷ rest) key other = ground (
    arith,
    lookup-delete rest key other,
    eq_iff entry.0 key,
    eq_iff entry.0 other,
    eq_iff key other,
  )

-- No key twice, as in every Go map.
abbrev pub HasKeysOnce {ℓ} : {V : Type ℓ} → Map V → Type 0
HasKeysOnce [] = Unit
HasKeysOnce (entry ∷ rest) = (has entry.0 rest ≡ false) × HasKeysOnce rest

pub HasKeysOnce-insert {ℓ} :
    {V : Type ℓ} (m : Map V) (key : String) (new : V)
    → HasKeysOnce m
    → HasKeysOnce (insert key new m)
unfolding insert lookup
HasKeysOnce-insert [] key new h = (refl, tt)
HasKeysOnce-insert (entry ∷ rest) key new h =
    let more = HasKeysOnce-insert rest key new h.1 in
    elim (Bool-cases (entry.0 == key)) [
      | inl same ↦ rw same (subst (λ k. has k rest ≡ false) ((eq_iff entry.0 key).0 same) h.0, h.1)
      | inr other ↦ rw other (
        ground (
          arith,
          h.0,
          other,
          lookup-insert rest key entry.0 new,
          eq_iff entry.0 key,
          eq_iff key entry.0,
        ),
        more,
      )
    ]

pub ruleset map_laws = (lookup-insert, lookup-delete)
