-- ===== src/Base/Json.antt =====
-- JSON values, Go's `interface{}` after decoding, and Go's `map[string]interface{}`.
use Prim.Native.String.{String}
use mathlib.Core.Path.{◌≡◌, refl}
use mathlib.Core.Bool.{Bool}
use mathlib.Core.Option.{Option, none, some}
use native.Mathlib.Omega.{arith}
use package.text.Mathlib.Text.{◌==◌}
use package.text.Mathlib.TextEquality.{eq_iff}
use mesh_for_data.Base.Tests.{if◌then◌else◌}

mutual
  pub data Value : Type 0 where
    null : Value
    bool : Bool → Value
    number : String → Value
    text : String → Value
    array : Items → Value
    object : Fields → Value

  pub data Items : Type 0 where
    nil : Items
    cons : Value → Items → Items

  pub data Fields : Type 0 where
    end : Fields
    field : String → Value → Fields → Fields

-- `obj[key]`
unfoldable pub get_field : String → Fields → Option Value
get_field key end = none
get_field key (field name old rest) =
    let later = get_field key rest in if name == key then some old else later

-- `obj[key] = new`
unfoldable pub set_field : String → Value → Fields → Fields
set_field key new end = field key new end
set_field key new (field name old rest) =
    let later = set_field key new rest in
    if name == key then field key new rest else field name old later

pub get-set_field :
    (obj : Fields) (key other : String) (new : Value)
    → get_field other (set_field key new obj)
      ≡ (if key == other then some new else get_field other obj)
unfolding get_field set_field
get-set_field end key other new = refl
get-set_field (field name old rest) key other new =
    ground (
      arith,
      get-set_field rest key other new,
      eq_iff name key,
      eq_iff name other,
      eq_iff key other,
    )
