-- ===== src/Base/Held.antt =====
-- Predicates on what a dictionary or a selection holds.
use mathlib.Core.Path.{◌≡◌, subst}
use mathlib.Core.Bool.{Bool, true}
use mathlib.Core.Logic.{inl, inr}
use mathlib.Core.Option.{some, some-injective, some-ne-none}
use mathlib.Core.Path.{sym}
use mathlib.Core.List.{List, [], ◌∷◌, Memᴰ}
use Prim.Native.String.{String}
use text.Mathlib.Text.{◌==◌ as str_eq}
use multi_cloud_ai_orchestra.Base.Tests.{Bool-cases}
use multi_cloud_ai_orchestra.Base.Lists.{All, select}
use multi_cloud_ai_orchestra.Base.Dict.{Dict, get, put, values}

-- Dictionaries whose values satisfy a predicate.
module _ {V : Type 0} (P : V → Type 0) where
  pub All-put :
      (k : String) (v : V) (d : Dict V) → P v → All P (values d) → All P (values (put k v d))
  unfolding put values
  All-put k v [] h g = (h, tt)
  All-put k v ((j, w) ∷ d) h g = elim (Bool-cases (str_eq j k)) [
    | inl t ↦ rw t (h, g.1)
    | inr f ↦ rw f (g.0, All-put k v d h g.1)
  ]

  pub All-get : (k : String) (v : V) (d : Dict V) → get k d ≡ some v → All P (values d) → P v
  unfolding get values
  All-get k v [] e g = absurd (some-ne-none v (sym e))
  All-get k v ((j, w) ∷ d) e g = elim (Bool-cases (str_eq j k)) [
    | inl t ↦ subst P (some-injective w v (rw t at e)) g.0
    | inr f ↦ All-get k v d (rw f at e) g.1
  ]

  pub All-of_select :
      (p : V → Bool) (xs : List V) → All P (select p xs) → All (λ x. p x ≡ true → P x) xs
  All-of_select p [] h = tt
  All-of_select p (x ∷ xs) h = elim (Bool-cases (p x)) [
    | inl t ↦ let g = rw t at h in (λ _. g.0, All-of_select p xs g.1)
    | inr f ↦ (λ t. absurd cc, All-of_select p xs (rw f at h))
  ]

pub select-All : {V : Type 0} (p : V → Bool) (xs : List V) → All (λ x. p x ≡ true) (select p xs)
select-All p [] = tt
select-All p (x ∷ xs) = elim (Bool-cases (p x)) [
  | inl t ↦ rw t (t, select-All p xs)
  | inr f ↦ rw f (select-All p xs)
]

mem_of_cons :
    {V : Type 0} (x y : V) (xs ys : List V)
    → (Memᴰ x xs → Memᴰ x ys)
    → Memᴰ x (y ∷ xs)
    → Memᴰ x (y ∷ ys)
mem_of_cons x y xs ys f (Memᴰ.head e) = Memᴰ.head e
mem_of_cons x y xs ys f (Memᴰ.tail m) = Memᴰ.tail (f m)

pub mem_of_select :
    {V : Type 0} (p : V → Bool) (x : V) (xs : List V) → Memᴰ x (select p xs) → Memᴰ x xs
mem_of_select p x [] m = m
mem_of_select p x (y ∷ xs) m = elim (Bool-cases (p y)) [
  | inl t ↦ mem_of_cons x y (select p xs) xs (mem_of_select p x xs) (rw t at m)
  | inr f ↦ Memᴰ.tail (mem_of_select p x xs (rw f at m))
]
