-- ===== src/Names/Tests.antt =====
-- The theorems of Names at a long name and a digest of sixteen digits.
use mesh_for_data.Base.{String, ◌≤◌, ◌≡◌, refl, arith}
use mesh_for_data.Names.{generate_bucket_name, hash, release_name, shortened_name, size, take, drop}
use mesh_for_data.Names.Bounds.{release_name_bounds, shortened_name_idem}

abbrev digest : String → String
digest value = "0123456789abcdef"

release_name_bounds_example :
    (size (release_name digest "notebook" "default" "a-module-with-a-name-that-is-far-too-long")
      ≤ 53)
    × (size (generate_bucket_name digest "notebook" "default" "asset-1") ≤ 63)
release_name_bounds_example =
    release_name_bounds digest "notebook" "default" "a-module-with-a-name-that-is-far-too-long"
      "asset-1"

shortened : shortened_name digest "a-long-name" 9 3 ≡ "a-lon-012"
unfolding shortened_name hash take drop
shortened = refl

shortened_twice :
    shortened_name digest (shortened_name digest "a-long-name" 9 3) 9 3
    ≡ shortened_name digest "a-long-name" 9 3
shortened_twice = shortened_name_idem digest "a-long-name" 9 3 (omega arith)
