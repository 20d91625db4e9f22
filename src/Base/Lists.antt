-- ===== src/Base/Lists.antt =====
-- Lists measured by native numbers, under the library's names, and Python's list comprehensions.
use Prim.Native.Nat.{ℕ, zero, suc, ◌+◌}
use mathlib.Core.Path.{◌≡◌, refl}
use mathlib.Core.Bool.{Bool, true, false, ◌&&◌, ◌||◌}
use mathlib.Core.List.{List, [], ◌∷◌, ◌++◌}
use native.Mathlib.Omega.{arith}
use multi_cloud_ai_orchestra.Base.Tests.{if◌then◌else◌, Bool-cases}
use mathlib.Core.Logic.{inl, inr}

module _ {ℓ} {A : Type ℓ} where
  abbrev pub length : List A → ℕ
  length [] = 0
  length (x ∷ xs) = suc (length xs)

  abbrev pub take : ℕ → List A → List A
  take zero xs = []
  take (suc n) [] = []
  take (suc n) (x ∷ xs) = x ∷ take n xs

  abbrev pub drop : ℕ → List A → List A
  drop zero xs = xs
  drop (suc n) [] = []
  drop (suc n) (x ∷ xs) = drop n xs

  -- `[x for x in xs if p(x)]`
  abbrev pub select : (A → Bool) → List A → List A
  select p [] = []
  select p (x ∷ xs) = let rest = select p xs in if p x then x ∷ rest else rest

  -- `any(p(x) for x in xs)`
  abbrev pub any : (A → Bool) → List A → Bool
  any p [] = false
  any p (x ∷ xs) = p x || any p xs

  -- `all(p(x) for x in xs)`
  abbrev pub all : (A → Bool) → List A → Bool
  all p [] = true
  all p (x ∷ xs) = p x && all p xs

  -- `sum(1 for x in xs if p(x))`
  abbrev pub count_if : (A → Bool) → List A → ℕ
  count_if p [] = 0
  count_if p (x ∷ xs) = (if p x then 1 else 0) + count_if p xs

  -- A predicate on every element, by recursion.
  abbrev pub All {κ} : (A → Type κ) → List A → Type κ
  All P [] = Unit
  All P (x ∷ xs) = P x × All P xs

  pub length-append : (xs ys : List A) → length (xs ++ ys) ≡ length xs + length ys
  length-append [] ys = omega arith
  length-append (x ∷ xs) ys = omega (arith, length-append xs ys)

  pub length-select : (p : A → Bool) (xs : List A) → length (select p xs) ≡ count_if p xs
  length-select p [] = refl
  length-select p (x ∷ xs) = ground (arith, length-select p xs)

  pub All-append {κ} : (P : A → Type κ) (xs ys : List A) → All P xs → All P ys → All P (xs ++ ys)
  All-append P [] ys h k = k
  All-append P (x ∷ xs) ys h k = (h.0, All-append P xs ys h.1 k)

  pub All-select {κ} :
      (P : A → Type κ) (p : A → Bool) (xs : List A) → All P xs → All P (select p xs)
  All-select P p [] h = tt
  All-select P p (x ∷ xs) h = elim (Bool-cases (p x)) [
    | inl t ↦ rw t (h.0, All-select P p xs h.1)
    | inr f ↦ rw f (All-select P p xs h.1)
  ]

  pub All-map {κ κ'} :
      (P : A → Type κ) (Q : A → Type κ') (xs : List A) → ((x : A) → P x → Q x) → All P xs → All Q xs
  All-map P Q [] f h = tt
  All-map P Q (x ∷ xs) f h = (f x h.0, All-map P Q xs f h.1)
