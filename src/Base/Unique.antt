-- ===== src/Base/Unique.antt =====
-- Dictionaries in which no key stands twice.
use Prim.Native.String.{String}
use mathlib.Core.Path.{◌≡◌}
use mathlib.Core.Option.{none}
use mathlib.Core.List.{[], ◌∷◌}
use native.Mathlib.Omega.{arith}
use text.Mathlib.Text.{◌==◌}
use text.Mathlib.TextEquality.{eq_iff}
use multi_cloud_ai_orchestra.Base.Tests.{if◌then◌else◌}
use multi_cloud_ai_orchestra.Base.Dict.{Dict, get, remove}

module _ {V : Type 0} where
  abbrev pub IsUnique : Dict V → Type 0
  IsUnique [] = Unit
  IsUnique ((j, v) ∷ d) = (get j d ≡ none) × IsUnique d

  pub get-remove :
      (k j : String) (d : Dict V)
      → IsUnique d
      → get j (remove k d) ≡ (if k == j then none else get j d)
  unfolding get remove
  get-remove k j [] h = ground arith
  get-remove k j ((i, v) ∷ d) h =
      ground (arith, eq_iff k j, eq_iff i k, eq_iff i j, get-remove k j d h.1, h.0)
