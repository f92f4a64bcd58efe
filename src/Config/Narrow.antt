-- ===== src/Config/Narrow.antt =====
-- What `merge_restrictions` of Config.antt makes of two maps of restrictions.
use mesh_for_data.Base.{
  String, ◌==◌, ◌≡◌, refl, sym, subst, Bool, true, false, not, ◌&&◌, Bool-cases, inl, inr, ◌⊎◌,
  List, [], ◌∷◌, Memᴰ, All, All-mem, arith, eq_iff, eq_refl, is_empty, keep-mem,
}
use mesh_for_data.Base.Maps.{insert, lookup-insert, get_or_zero}
use mesh_for_data.Api.Rules.{Restriction}
use mesh_for_data.Planner.Choice.{has_string}
use mesh_for_data.Planner.Choice.Placement.{mem-has_string}
use mesh_for_data.Config.{intersection, merge_restrictions, merged_values}

-- The values that the map leaves for the key are some, and all among the given ones. An empty list
-- of given values asks for nothing.
abbrev pub Narrows : Restriction → String → List String → Type 0
Narrows r key values =
    (is_empty values ≡ true)
    ⊎ ((is_empty (get_or_zero [] key r) ≡ false) × All (λ v. Memᴰ v values) (get_or_zero [] key r))

-- The second map narrows every entry of the first.
abbrev pub NarrowsAll : Restriction → Restriction → Type 0
NarrowsAll asked r = All (λ (e : String × List String). Narrows r e.0 e.1) asked

pub All-mems :
    (l all : List String) → ((v : String) → Memᴰ v l → Memᴰ v all) → All (λ v. Memᴰ v all) l
All-mems [] all f = tt
All-mems (v ∷ l) all f = (f v (Memᴰ.head refl), All-mems l all (λ w m. f w (Memᴰ.tail m)))

intersection-mem :
    (set1 set2 : List String) (v : String)
    → Memᴰ v (intersection set1 set2)
    → Memᴰ v set1 × Memᴰ v set2
unfolding intersection
intersection-mem set1 set2 v m =
    let (one, two) = keep-mem (λ e. has_string e set2) set1 m in (one, mem-has_string v set2 two)

pub get_or_zero-insert_self :
    (key : String) (values : List String) (r : Restriction)
    → get_or_zero [] key (insert key values r) ≡ values
get_or_zero-insert_self key values r = simp (lookup-insert, eq_refl)

pub get_or_zero-insert_other :
    (key other : String) (values : List String) (r : Restriction)
    → (key == other) ≡ false
    → get_or_zero [] other (insert key values r) ≡ get_or_zero [] other r
get_or_zero-insert_other key other values r d = simp (lookup-insert, d)

-- No conflict arises between the values of the map and the new ones.
abbrev Fits : List String → List String → Type 0
Fits old values = (not (is_empty old) && is_empty (merged_values old values)) ≡ false

merged_values-within :
    (old values asked : List String)
    → Fits old values
    → is_empty old ≡ false
    → All (λ v. Memᴰ v asked) old
    → (is_empty (merged_values old values) ≡ false)
      × All (λ v. Memᴰ v asked) (merged_values old values)
merged_values-within [] values asked fits h within = cc
merged_values-within (o ∷ old) values asked fits h within = (
  fits,
  All-mems (intersection (o ∷ old) values) asked (λ v m.
      All-mem (λ w. Memᴰ w asked) (o ∷ old) within (intersection-mem (o ∷ old) values v m).0),
)

merged_values-asked :
    (old values : List String)
    → Fits old values
    → (is_empty values ≡ true)
      ⊎ ((is_empty (merged_values old values) ≡ false)
          × All (λ v. Memᴰ v values) (merged_values old values))
merged_values-asked [] [] fits = inl refl
merged_values-asked [] (v ∷ values) fits = inr (refl, All-mems (v ∷ values) (v ∷ values) (λ w m. m))
merged_values-asked (o ∷ old) values fits = inr (
  fits,
  All-mems (intersection (o ∷ old) values) values
      (λ v m. (intersection-mem (o ∷ old) values v m).1),
)

-- A round with no conflict keeps what the map narrowed before.
round-Narrows :
    (r : Restriction) (key other : String) (values asked : List String)
    → Fits (get_or_zero [] key r) values
    → Narrows r other asked
    → Narrows (insert key (merged_values (get_or_zero [] key r) values) r) other asked
round-Narrows r key other values asked fits (inl nothing) = inl nothing
round-Narrows r key other values asked fits (inr (some_left, within)) =
    elim (Bool-cases (key == other)) [
      | inr d ↦ rw (get_or_zero-insert_other key other _ r d) (inr (some_left, within))
      | inl e ↦
          let same : other ≡ key = sym ((eq_iff key other).0 e) in
          subst (λ k. Narrows (insert key (merged_values (get_or_zero [] key r) values) r) k asked)
            (sym same)
            (rw get_or_zero-insert_self (
              inr (
                merged_values-within (get_or_zero [] key r) values asked fits (rw same at some_left)
                  (rw same at within))))
    ]

-- A round with no conflict narrows the entry that it adds.
round-Narrows_self :
    (r : Restriction) (key : String) (values : List String)
    → Fits (get_or_zero [] key r) values
    → Narrows (insert key (merged_values (get_or_zero [] key r) values) r) key values
round-Narrows_self r key values fits =
    rw get_or_zero-insert_self (merged_values-asked (get_or_zero [] key r) values fits)

merge_restrictions_cons :
    (r1 : Restriction) (key : String) (values : List String) (rest : Restriction)
    → (merge_restrictions r1 ((key, values) ∷ rest)).1 ≡ true
    → let next = insert key (merged_values (get_or_zero [] key r1) values) r1 in
      Fits (get_or_zero [] key r1) values
      × (merge_restrictions r1 ((key, values) ∷ rest) ≡ merge_restrictions next rest)
unfolding merge_restrictions
merge_restrictions_cons r1 key values rest h =
    elim (Bool-cases (
      not (is_empty (get_or_zero [] key r1))
      && is_empty (merged_values (get_or_zero [] key r1) values))) [
        | inl e ↦ absurd (ground arith)
        | inr e ↦ (e, rw e refl)
      ]

merge_restrictions-Narrows :
    (r1 r2 : Restriction) (key : String) (asked : List String)
    → (merge_restrictions r1 r2).1 ≡ true
    → Narrows r1 key asked
    → Narrows (merge_restrictions r1 r2).0 key asked
merge_restrictions-Narrows r1 [] key asked h n = unfold merge_restrictions in n
merge_restrictions-Narrows r1 ((k, values) ∷ rest) key asked h n =
    let (fits, e) = merge_restrictions_cons r1 k values rest h in
    rw e (
      merge_restrictions-Narrows (insert k (merged_values (get_or_zero [] k r1) values) r1) rest key
        asked (rw e at h) (round-Narrows r1 k key values asked fits n))

pub merge_restrictions-NarrowsAll :
    (r1 r2 : Restriction)
    → (merge_restrictions r1 r2).1 ≡ true
    → NarrowsAll r2 (merge_restrictions r1 r2).0
merge_restrictions-NarrowsAll r1 [] h = tt
merge_restrictions-NarrowsAll r1 ((k, values) ∷ rest) h =
    let (fits, e) = merge_restrictions_cons r1 k values rest h in
    let next = insert k (merged_values (get_or_zero [] k r1) values) r1 in
    subst (λ (x : Restriction × Bool). NarrowsAll ((k, values) ∷ rest) x.0) (sym e)
      (
        merge_restrictions-Narrows next rest k values (rw e at h)
            (round-Narrows_self r1 k values fits),
        merge_restrictions-NarrowsAll next rest (rw e at h),
      )

pub merge_restrictions_kept :
    (asked r1 r2 : Restriction)
    → (merge_restrictions r1 r2).1 ≡ true
    → NarrowsAll asked r1
    → NarrowsAll asked (merge_restrictions r1 r2).0
merge_restrictions_kept [] r1 r2 h n = tt
merge_restrictions_kept ((k, values) ∷ rest) r1 r2 h n =
    (merge_restrictions-Narrows r1 r2 k values h n.0, merge_restrictions_kept rest r1 r2 h n.1)
