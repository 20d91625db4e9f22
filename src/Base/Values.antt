-- ===== src/Base/Values.antt =====
-- The values of `dict[str, Any]` fields, and the dictionaries that pydantic dumps.
use Prim.Native.Nat.{ℕ}
use Prim.Native.String.{String}
use mathlib.Core.Bool.{Bool}
use mathlib.Core.List.{List, [], ◌∷◌}
use native.Mathlib.Decide.{ℕ_discrete}
use multi_cloud_ai_orchestra.Base.Text.{String-discrete}

mutual
  pub data Json : Type 0 where
    null : Json
    flag : Bool → Json
    num : ℕ → Json
    str : String → Json
    arr : Items → Json
    obj : Fields → Json

  pub data Items : Type 0 where
    no_items : Items
    item : Json → Items → Items

  pub data Fields : Type 0 where
    no_fields : Fields
    field : String → Json → Fields → Fields

unfoldable pub Json-discrete : Discrete Json
Json-discrete = hlevel (ℕ_discrete, String-discrete)

-- A list of texts as a value.
unfoldable pub items_of : List String → Items
items_of [] = no_items
items_of (s ∷ ss) = item (str s) (items_of ss)

abbrev pub texts : List String → Json
texts ss = arr (items_of ss)
