-- ===== src/Base/Sort.antt =====
-- Python's `sorted`, which is stable, also with `reverse=True`: an insertion sort by a test `le`.
use Prim.Native.Nat.{ℕ, suc}
use mathlib.Core.Path.{◌≡◌, refl, ◌∙◌, ap}
use mathlib.Core.Bool.{Bool, true, false, ◌&&◌, ◌||◌}
use mathlib.Core.Logic.{◌⊎◌, inl, inr}
use mathlib.Core.List.Perm
use mathlib.Core.List.{List, [], ◌∷◌, Perm, Memᴰ}
use native.Mathlib.Omega.{arith}
use multi_cloud_ai_orchestra.Base.Tests.{leb, if◌then◌else◌, Bool-cases}
use multi_cloud_ai_orchestra.Base.Lists.{All, length, All-map, any, select}

module _ {A : Type 0} (le : A → A → Bool) where
  unfoldable pub insert : A → List A → List A
  insert x [] = x ∷ []
  insert x (y ∷ ys) = if le x y then x ∷ y ∷ ys else y ∷ insert x ys

  unfoldable pub sort : List A → List A
  unfolding insert
  sort [] = []
  sort (x ∷ xs) = insert x (sort xs)

  abbrev pub IsSorted : List A → Type 0
  IsSorted [] = Unit
  IsSorted (x ∷ xs) = All (λ y. le x y ≡ true) xs × IsSorted xs

  insert-perm : (x : A) (ys : List A) → Perm (insert x ys) (x ∷ ys)
  unfolding insert
  insert-perm x [] = Perm.rfl
  insert-perm x (y ∷ ys) = elim (Bool-cases (le x y)) [
    | inl t ↦ rw t Perm.rfl
    | inr f ↦ rw f (Perm.trans (Perm.cons y (insert-perm x ys)) (Perm.swap x y ys))
  ]

  pub sort-perm : (xs : List A) → Perm (sort xs) xs
  unfolding sort
  sort-perm [] = Perm.rfl
  sort-perm (x ∷ xs) = Perm.trans (insert-perm x (sort xs)) (Perm.cons x (sort-perm xs))

  All-insert : (P : A → Type 0) (x : A) (ys : List A) → P x → All P ys → All P (insert x ys)
  unfolding insert
  All-insert P x [] h k = (h, tt)
  All-insert P x (y ∷ ys) h k = elim (Bool-cases (le x y)) [
    | inl t ↦ rw t (h, k)
    | inr f ↦ rw f (k.0, All-insert P x ys h k.1)
  ]

  -- A property of all elements is one of the sorted list's.
  pub All-sort : (P : A → Type 0) (xs : List A) → All P xs → All P (sort xs)
  unfolding sort
  All-sort P [] h = tt
  All-sort P (x ∷ xs) h = All-insert P x (sort xs) h.0 (All-sort P xs h.1)

mem_of_cons : {A : Type 0} (y x : A) (xs : List A) → Memᴰ y (x ∷ xs) → (y ≡ x) ⊎ Memᴰ y xs
mem_of_cons y x xs (Memᴰ.head e) = inl e
mem_of_cons y x xs (Memᴰ.tail m) = inr m

module _ {A : Type 0} (le : A → A → Bool) where
  All-of_insert : (P : A → Type 0) (x : A) (ys : List A) → All P (insert le x ys) → P x × All P ys
  unfolding insert
  All-of_insert P x [] h = (h.0, tt)
  All-of_insert P x (y ∷ ys) h = elim (Bool-cases (le x y)) [
    | inl t ↦ let k = rw t at h in (k.0, k.1)
    | inr f ↦ let k = rw f at h in let (hx, hys) = All-of_insert P x ys k.1 in (hx, (k.0, hys))
  ]

  -- A property of the sorted list's elements is one of all elements.
  pub All-of_sort : (P : A → Type 0) (xs : List A) → All P (sort le xs) → All P xs
  unfolding sort
  All-of_sort P [] h = tt
  All-of_sort P (x ∷ xs) h =
      let (hx, rest) = All-of_insert P x (sort le xs) h in (hx, All-of_sort P xs rest)

  mem_of_insert : (y x : A) (ys : List A) → Memᴰ y (insert le x ys) → (y ≡ x) ⊎ Memᴰ y ys
  unfolding insert
  mem_of_insert y x [] (Memᴰ.head e) = inl e
  mem_of_insert y x [] (Memᴰ.tail m) = inr m
  mem_of_insert y x (z ∷ ys) m = elim (Bool-cases (le x z)) [
    | inl t ↦ mem_of_cons y x (z ∷ ys) (rw t at m)
    | inr f ↦ elim (mem_of_cons y z (insert le x ys) (rw f at m)) [
      | inl e ↦ inr (Memᴰ.head e)
      | inr k ↦ elim (mem_of_insert y x ys k) [ inl e ↦ inl e | inr n ↦ inr (Memᴰ.tail n) ]
    ]
  ]

  pub mem_of_sort : (y : A) (xs : List A) → Memᴰ y (sort le xs) → Memᴰ y xs
  unfolding sort
  mem_of_sort y [] m = m
  mem_of_sort y (x ∷ xs) m = elim (mem_of_insert y x (sort le xs) m) [
    | inl e ↦ Memᴰ.head e
    | inr k ↦ Memᴰ.tail (mem_of_sort y xs k)
  ]

  any-insert : (p : A → Bool) (x : A) (ys : List A) → any p (insert le x ys) ≡ (p x || any p ys)
  unfolding insert
  any-insert p x [] = refl
  any-insert p x (y ∷ ys) = ground (arith, any-insert p x ys)

  pub any-sort : (p : A → Bool) (xs : List A) → any p (sort le xs) ≡ any p xs
  unfolding sort
  any-sort p [] = refl
  any-sort p (x ∷ xs) = any-insert p x (sort le xs) ∙ ap (λ b. p x || b) (any-sort p xs)

  length-insert : (x : A) (ys : List A) → length (insert le x ys) ≡ suc (length ys)
  unfolding insert
  length-insert x [] = refl
  length-insert x (y ∷ ys) = ground (arith, length-insert x ys)

  pub length-sort : (xs : List A) → length (sort le xs) ≡ length xs
  unfolding sort
  length-sort [] = refl
  length-sort (x ∷ xs) = length-insert x (sort le xs) ∙ ap suc (length-sort xs)

-- What a test must satisfy to sort by it.
pub record IsTotal {A : Type 0} (le : A → A → Bool) : Type 0 where
  pub total : (x y : A) → le x y ≡ false → le y x ≡ true
  pub trans : (x y z : A) → le x y ≡ true → le y z ≡ true → le x z ≡ true

module _ {A : Type 0} {le : A → A → Bool} (laws : IsTotal le) where
  open laws use {total, trans}

  insert-IsSorted : (x : A) (ys : List A) → IsSorted le ys → IsSorted le (insert le x ys)
  unfolding insert
  insert-IsSorted x [] h = (tt, tt)
  insert-IsSorted x (y ∷ ys) h = elim (Bool-cases (le x y)) [
    | inl t ↦
        rw t (
          (t, All-map (λ z. le y z ≡ true) (λ z. le x z ≡ true) ys (λ z k. trans x y z t k) h.0),
          h,
        )
    | inr f ↦
        rw f (All-insert le (λ z. le y z ≡ true) x ys (total x y f) h.0, insert-IsSorted x ys h.1)
  ]

  pub sort-IsSorted : (xs : List A) → IsSorted le (sort le xs)
  unfolding sort
  sort-IsSorted [] = tt
  sort-IsSorted (x ∷ xs) = insert-IsSorted x (sort le xs) (sort-IsSorted xs)

module _ {A : Type 0} (key : A → ℕ) where
  abbrev pub ascending : A → A → Bool
  ascending x y = leb (key x) (key y)

  abbrev pub descending : A → A → Bool
  descending x y = leb (key y) (key x)

  -- `sorted(xs, key=key)`
  abbrev pub sorted : List A → List A
  sorted = sort ascending

  -- `sorted(xs, key=key, reverse=True)`
  abbrev pub sorted_reverse : List A → List A
  sorted_reverse = sort descending

  pub ascending-IsTotal : IsTotal ascending
  ascending-IsTotal = record { total = λ x y h. ground arith; trans = λ x y z h k. ground arith }

  pub descending-IsTotal : IsTotal descending
  descending-IsTotal = record { total = λ x y h. ground arith; trans = λ x y z h k. ground arith }

  -- Elements that are equal to each other in the order keep their order.
  abbrev pub same_key : ℕ → A → Bool
  same_key k x = leb (key x) k && leb k (key x)

  insert-stable :
      (k : ℕ) (x : A) (ys : List A)
      → select (same_key k) (insert ascending x ys) ≡ select (same_key k) (x ∷ ys)
  unfolding insert
  insert-stable k x [] = refl
  insert-stable k x (y ∷ ys) = ground (arith, insert-stable k x ys)

  pub sorted-stable :
      (k : ℕ) (xs : List A) → select (same_key k) (sorted xs) ≡ select (same_key k) xs
  unfolding sort
  sorted-stable k [] = refl
  sorted-stable k (x ∷ xs) = insert-stable k x (sorted xs) ∙ ground (arith, sorted-stable k xs)
