-- ===== src/Base/Keyed.antt =====
-- Dictionaries that hold each value under an identifier of its own.
use Prim.Native.String.{String}
use mathlib.Core.Path.{◌≡◌, refl, sym, ap, ◌∙◌}
use mathlib.Core.Bool.{false}
use mathlib.Core.Logic.{inl, inr}
use mathlib.Core.Option.{none, some}
use mathlib.Core.List.{[], ◌∷◌, Memᴰ}
use native.Mathlib.Omega.{arith}
use text.Mathlib.Text.{◌==◌}
use text.Mathlib.TextEquality.{eq_iff}
use multi_cloud_ai_orchestra.Base.Tests.{Bool-cases}
use multi_cloud_ai_orchestra.Base.Dict.{Dict, get, put, values, get-put}

module _ {V : Type 0} (ident : V → String) where
  -- Every value stands under its identifier, and no key stands twice.
  abbrev pub IsKeyed : Dict V → Type 0
  IsKeyed [] = Unit
  IsKeyed ((j, v) ∷ d) = (ident v ≡ j) × (get j d ≡ none) × IsKeyed d

  -- `d[v.id] = v`
  abbrev pub store : V → Dict V → Dict V
  store v d = put (ident v) v d

  pub get-store_self : (v : V) (d : Dict V) → get (ident v) (store v d) ≡ some v
  get-store_self v d = get-put (ident v) (ident v) v d ∙ ground (arith, eq_iff (ident v) (ident v))

  put-IsKeyed : (k : String) (v : V) (d : Dict V) → ident v ≡ k → IsKeyed d → IsKeyed (put k v d)
  unfolding put get
  put-IsKeyed k v [] e h = (e, refl, tt)
  put-IsKeyed k v ((j, w) ∷ d) e h = elim (Bool-cases (j == k)) [
    | inl t ↦ rw t (e ∙ sym ((eq_iff j k).0 t), h.1, h.2)
    | inr f ↦
        rw f (
          h.0,
          ground (arith, get-put k j v d, eq_iff k j, eq_iff j k, h.1),
          put-IsKeyed k v d e h.2,
        )
  ]

  pub store-IsKeyed : (v : V) (d : Dict V) → IsKeyed d → IsKeyed (store v d)
  store-IsKeyed v d h = put-IsKeyed (ident v) v d refl h

  get-none-ne :
      (d : Dict V) (j : String) (v : V)
      → get j d ≡ none
      → get (ident v) d ≡ some v
      → (j == ident v) ≡ false
  get-none-ne d j v n s = ground (arith, eq_iff j (ident v))

  -- What the values hold, the keys find.
  pub get_of_mem : (d : Dict V) (v : V) → IsKeyed d → Memᴰ v (values d) → get (ident v) d ≡ some v
  unfolding values get
  get_of_mem [] v h m = elim m [ ]
  get_of_mem ((j, w) ∷ d) v h (Memᴰ.head e) = ground (arith, eq_iff j (ident v), h.0, ap ident e)
  get_of_mem ((j, w) ∷ d) v h (Memᴰ.tail m) =
      let found = get_of_mem d v h.2 m in rw (get-none-ne d j v h.1 found) found
