-- ===== src/Names.antt =====
-- The names that manager/controllers/utils/utils.go makes: Hash, GetReleaseName, K8sConformName,
-- HelmConformName and ShortenedName, and generateBucketName of
-- manager/controllers/app/plotter_generator.go. The SHA-512 digest in hexadecimal digits is a
-- parameter. Names are ASCII texts, as Kubernetes asks for, so that `len` counts characters.
pub mod Bounds
mod Tests
use Prim.Native.String
use Prim.Native.Char.{code}
use mesh_for_data.Base.{String, ℕ, zero, suc, ◌-◌, ◌<>◌, ltb, nat_eq, if◌then◌else◌}

-- `len(s)`
abbrev pub size : String → ℕ
size String.[] = 0
size (String.◌∷◌ c s) = suc (size s)

-- `s[:n]`
unfoldable pub take : ℕ → String → String
take zero s = ""
take (suc n) String.[] = ""
take (suc n) (String.◌∷◌ c s) = String.◌∷◌ c (take n s)

-- `s[n:]`
unfoldable pub drop : ℕ → String → String
drop zero s = s
drop (suc n) String.[] = ""
drop (suc n) (String.◌∷◌ c s) = drop n s

-- `strings.ReplaceAll(s, ".", "-")`
unfoldable pub dashed : String → String
dashed String.[] = ""
dashed (String.◌∷◌ c s) =
    let rest = dashed s in if nat_eq (code c) b'.' then "-" <> rest else String.◌∷◌ c rest

module _ (digest : String → String) where
  unfoldable pub hash : String → ℕ → String
  unfolding take
  hash value hash_length =
      let hashed = digest value in
      if ltb hash_length (size hashed) then take hash_length hashed else hashed

  unfoldable pub shortened_name : String → ℕ → ℕ → String
  unfolding hash take drop
  shortened_name name max_length hash_length =
      let cut = max_length - hash_length - 1 in
      if ltb max_length (size name)
      then take cut name <> "-" <> hash (drop cut name) hash_length
      else name

  unfoldable pub k8s_conform_name : String → String
  unfolding shortened_name
  k8s_conform_name name = shortened_name name 63 5

  unfoldable pub helm_conform_name : String → String
  unfolding shortened_name
  helm_conform_name name = shortened_name name 53 5

  -- GetReleaseName and GetReleaseNameByStepName.
  unfoldable pub release_name : String → String → String → String
  unfolding helm_conform_name
  release_name application_name namespace instance =
      helm_conform_name (application_name <> "-" <> namespace <> "-" <> instance)

  unfoldable pub generate_bucket_name : String → String → String → String
  unfolding hash dashed k8s_conform_name
  generate_bucket_name owner_name owner_namespace id =
      k8s_conform_name (dashed (owner_name <> "-" <> owner_namespace <> hash id 10))
