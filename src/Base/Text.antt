-- ===== src/Base/Text.antt =====
-- `strings.Split(s, ".")` and the other functions of Go's `strings` that the program uses.
use Prim.Native.String
use Prim.Native.String.{String}
use Prim.Native.Char.{code}
use mathlib.Core.Bool.{Bool, true, false}
use mathlib.Core.List.{List, [], ◌∷◌}
use mesh_for_data.Base.Tests.{nat_eq, if◌then◌else◌}

-- The character `c` put in front of the first part.
abbrev pub onto_first : String → List String → List String
onto_first c [] = c ∷ []
onto_first c (part ∷ parts) = String.◌++◌ c part ∷ parts

unfoldable pub split_dots : String → List String
split_dots String.[] = "" ∷ []
split_dots (String.◌∷◌ c s) =
    let parts = split_dots s in
    if nat_eq (code c) b'.' then "" ∷ parts else onto_first (String.◌∷◌ c "") parts

-- `strings.Join`
unfoldable pub join : String → List String → String
join sep [] = ""
join sep (s ∷ []) = s
join sep (s ∷ t ∷ rest) = String.◌++◌ s (String.◌++◌ sep (join sep (t ∷ rest)))

-- `strings.HasPrefix(s, prefix)`
unfoldable pub has_prefix : String → String → Bool
has_prefix s String.[] = true
has_prefix String.[] (String.◌∷◌ d prefix) = false
has_prefix (String.◌∷◌ c s) (String.◌∷◌ d prefix) =
    let rest = has_prefix s prefix in if nat_eq (code c) (code d) then rest else false
