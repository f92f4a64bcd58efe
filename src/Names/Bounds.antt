-- ===== src/Names/Bounds.antt =====
-- The lengths of the names of Names.antt.
use text.Mathlib.TextLemmas.{nil-append, cons-append}
use mesh_for_data.Base.{
  String, ℕ, zero, suc, ◌+◌, ◌-◌, ◌≤◌, ◌<◌, ◌≡◌, ◌<>◌, ltb, arith, Bool-cases, inl, inr,
}
use mesh_for_data.Names.{
  dashed, drop, generate_bucket_name, hash, helm_conform_name, k8s_conform_name, release_name,
  shortened_name, size, take,
}

size-append : (s t : String) → size (s <> t) ≡ size s + size t
size-append String.[] t = rw (nil-append t) (omega arith)
size-append (String.◌∷◌ c s) t = rw (cons-append c s t) (omega (arith, size-append s t))

size-take : (n : ℕ) (s : String) → size (take n s) ≤ n
unfolding take
size-take zero s = omega arith
size-take (suc n) String.[] = omega arith
size-take (suc n) (String.◌∷◌ c s) = omega (arith, size-take n s)

module _ (digest : String → String) where
  size-hash : (value : String) (n : ℕ) → size (hash digest value n) ≤ n
  unfolding hash
  size-hash value n = ground (arith, size-take n (digest value))

  -- A shortened name is no longer than the maximum, where that leaves room for the hash and a dash.
  pub size-shortened_name :
      (name : String) (max_length hash_length : ℕ)
      → hash_length < max_length
      → size (shortened_name digest name max_length hash_length) ≤ max_length
  unfolding shortened_name
  size-shortened_name name m h room = elim (Bool-cases (ltb m (size name))) [
    | inr short ↦ rw short (ground arith)
    | inl long ↦
        let cut = m - h - 1 in
        rw long (
          omega (
            arith,
            size-append (take cut name) ("-" <> hash digest (drop cut name) h),
            size-append "-" (hash digest (drop cut name) h),
            size-take cut name,
            size-hash (drop cut name) h,
          ))
  ]

  -- A release name has at most the 53 characters that Helm allows, and a bucket name at most the 63
  -- that Kubernetes allows, whatever the names are that they are made of.
  pub release_name_bounds :
      (application_name namespace instance id : String)
      → (size (release_name digest application_name namespace instance) ≤ 53)
        × (size (generate_bucket_name digest application_name namespace id) ≤ 63)
  unfolding release_name helm_conform_name generate_bucket_name k8s_conform_name
  release_name_bounds a n i id = (
    size-shortened_name (a <> "-" <> n <> "-" <> i) 53 5 (omega arith),
    size-shortened_name (dashed (a <> "-" <> n <> hash digest id 10)) 63 5 (omega arith),
  )

  -- Shortening a name that was shortened already changes nothing.
  pub shortened_name_idem :
      (name : String) (max_length hash_length : ℕ)
      → hash_length < max_length
      → shortened_name digest
          (shortened_name digest name max_length hash_length)
          max_length
          hash_length
        ≡ shortened_name digest name max_length hash_length
  shortened_name_idem name m h room =
      let short = size-shortened_name name m h room in
      unfold shortened_name in ground (arith, short)
