-- ===== src/Json.antt =====
-- JSON texts as the trees that serde_json writes and reads (`serde_json::Value`).
use Prim.Native.String.{String}
use text.Mathlib.Text.{◌==◌}
use joinstr.Prelude.{ℕ, Bool, Option, none, some, if◌then◌else◌}

mutual
  pub data Value : Type 0 where
    object : Members → Value
    array : Values → Value
    string : String → Value
    number : ℕ → Value
    bool : Bool → Value
    null : Value

  pub data Members : Type 0 where
    no_members : Members
    member : String → Value → Members → Members

  pub data Values : Type 0 where
    no_values : Values
    value : Value → Values → Values

unfoldable pub one : Value → Value
one a = array (value a no_values)

unfoldable pub two : Value → Value → Value
two a b = array (value a (value b no_values))

unfoldable pub three : Value → Value → Value → Value
three a b c = array (value a (value b (value c no_values)))

-- `Map::get`
unfoldable pub lookup : Members → String → Option Value
lookup no_members k = none
lookup (member j v m) k = if j == k then some v else lookup m k

-- `Map::insert`. Nothing reads the order of an object's members.
unfoldable pub insert : Members → String → Value → Members
insert no_members k v = member k v no_members
insert (member j w m) k v =
    let rest = insert m k v in if j == k then member k v m else member j w rest
