-- ===== src/Base/Dict.antt =====
-- Python's `dict` with string keys, in insertion order: an assignment to a key that is there
-- keeps its place, a new key goes to the end.
use Prim.Native.String.{String}
use mathlib.Core.Path.{◌≡◌, refl}
use mathlib.Core.Option.{Option, none, some}
use mathlib.Core.List.{List, [], ◌∷◌}
use native.Mathlib.Omega.{arith}
use text.Mathlib.Text.{◌==◌}
use text.Mathlib.TextEquality.{eq_iff}
use multi_cloud_ai_orchestra.Base.Tests.{if◌then◌else◌}

abbrev pub Dict {ℓ} : Type ℓ → Type ℓ
Dict V = List (String × V)

module _ {ℓ} {V : Type ℓ} where
  -- d.get(k)
  unfoldable pub get : String → Dict V → Option V
  get k [] = none
  get k ((j, v) ∷ d) = if j == k then some v else get k d

  -- d[k] = v
  unfoldable pub put : String → V → Dict V → Dict V
  put k v [] = (k, v) ∷ []
  put k v ((j, w) ∷ d) = if j == k then (j, v) ∷ d else (j, w) ∷ put k v d

  -- d.pop(k, None)
  unfoldable pub remove : String → Dict V → Dict V
  remove k [] = []
  remove k ((j, w) ∷ d) = if j == k then d else (j, w) ∷ remove k d

  -- d.values()
  unfoldable pub values : Dict V → List V
  values [] = []
  values ((j, v) ∷ d) = v ∷ values d

  pub get-put :
      (k j : String) (v : V) (d : Dict V) → get j (put k v d) ≡ (if k == j then some v else get j d)
  unfolding get put
  get-put k j v [] = refl
  get-put k j v ((i, w) ∷ d) = ground (arith, eq_iff k j, eq_iff i k, eq_iff i j, get-put k j v d)
